-- ===== src/PlinIndex/Upsert.antt =====
-- `LeafNode::find` after `LeafNode::upsert` (src/core/index/leaf_node.h), along the chain of leaves.
use plin_cloud_edge_device_l.Common.{
  ℕ, ◌≡◌, refl, sym, ap, ◌∙◌, ◌⊎◌, inl, inr, true, false, List, [], ◌∷◌, Option, none, some, arith,
  ◌==◌, Bool-cases, Option-cases, get_elem?, set,
}
use mathlib.Core.Option.{some-injective}
use plin_cloud_edge_device_l.Double.{Double}
use plin_cloud_edge_device_l.Plin.Predict.{Arith}
use plin_cloud_edge_device_l.PlinIndex.Slot.{InnerSlot}
use plin_cloud_edge_device_l.PlinIndex.Leaf.{
  OverflowTree, Block, Leaf, is_locked, release_lock, block_upsert,
}
use plin_cloud_edge_device_l.PlinIndex.Chain.{
  chosen_block, block_count, passes_on, may_read, may_write, Changed, behind, counted, upsert_here,
  upsert,
}

module _ (a : Arith) (o : OverflowTree) where
  -- What the choice of a block reads is the same.
  pub record SameModel (l l' : Leaf o) : Type 0 where
    pub slope : l'.slope ≡ l.slope
    pub intercept : l'.intercept ≡ l.intercept
    pub block_number : l'.block_number ≡ l.block_number
    pub first_key : l'.first_key ≡ l.first_key
    pub locked : l'.locked ≡ l.locked

  pub same_block :
      (acc : Option InnerSlot) (l l' : Leaf o) (j : Double)
      → SameModel l l'
      → chosen_block a o acc l' j ≡ chosen_block a o acc l j
  unfolding chosen_block
  same_block none l l' j m = rw (m.slope, m.intercept, m.block_number) refl
  same_block (some s) l l' j m = refl

  pub same_passes_on :
      (acc : Option InnerSlot) (l l' : Leaf o) (next : List (Leaf o)) (j : Double)
      → SameModel l l'
      → passes_on a o acc l' next j ≡ passes_on a o acc l next j
  unfolding passes_on block_count
  same_passes_on acc l l' [] j m = refl
  same_passes_on none l l' (n ∷ next) j m = rw (same_block none l l' j m, m.block_number) refl
  same_passes_on (some s) l l' (n ∷ next) j m = rw (same_block (some s) l l' j m) refl

  pub same_may_read :
      (acc : Option InnerSlot) (l l' : Leaf o)
      → SameModel l l'
      → may_read a o acc l' ≡ may_read a o acc l
  unfolding may_read
  same_may_read none l l' m = rw m.locked refl
  same_may_read (some s) l l' m = refl

  -- The head of a chain behind another leaf has the first key that it had.
  pub passes_on_head :
      (acc : Option InnerSlot) (l n n' : Leaf o) (next next' : List (Leaf o)) (j : Double)
      → n'.first_key ≡ n.first_key
      → passes_on a o acc l (n' ∷ next') j ≡ passes_on a o acc l (n ∷ next) j
  unfolding passes_on
  passes_on_head acc l n n' next next' j e = rw e refl

  counted-SameModel :
      (acc : Option InnerSlot) (flag : ℕ) (l l' : Leaf o)
      → SameModel l l'
      → SameModel l (counted a o acc flag l').2 × ((counted a o acc flag l').2.blocks ≡ l'.blocks)
  unfolding counted
  counted-SameModel acc flag l l' m = elim (Bool-cases (flag == 4)) [
    | inl t ↦ rw t (
      record {
        slope = m.slope;
        intercept = m.intercept;
        block_number = m.block_number;
        first_key = m.first_key;
        locked = m.locked;
      },
      refl,
    )
    | inr t ↦ rw t (m, refl)
  ]

  -- What a write that is no retry does to its leaf.
  abbrev pub Written : Leaf o → List (Leaf o) → ℕ → Double → ℕ → Changed o → Type 0
  Written l next block k v r =
      (b b' : Block o) × (flag : ℕ) × (l' : Leaf o) × (get_elem? l.blocks block ≡ some b)
      × (is_locked o b ≡ false)
      × (block_upsert o k v b ≡ some (flag, b'))
      × SameModel l l'
      × (l'.blocks ≡ set l.blocks block (release_lock o b'))
      × (r.leaves ≡ l' ∷ next)

  upsert_here-Written :
      (acc : Option InnerSlot) (l : Leaf o) (next : List (Leaf o)) (block : ℕ) (k : Double) (v : ℕ)
      (r : Changed o)
      → upsert_here a o acc l next block k v ≡ some r
      → (r.ret == 7) ≡ false
      → Written l next block k v r
  unfolding upsert_here
  upsert_here-Written acc l next block k v r e done =
      elim (Option-cases (get_elem? l.blocks block)) [
        | inl n ↦ cc (rw (n, upsert_here) at e)
        | inr (b, n) ↦
            let e1 = (rw (n, upsert_here) at e) in
            elim (Bool-cases (may_write a o acc l)) [
              | inr w ↦ absurd (ground (arith, rw w at e1))
              | inl w ↦ elim (Bool-cases (is_locked o b)) [
                | inl t ↦ cc (rw (w, t) at e1)
                | inr t ↦ elim (Option-cases (block_upsert o k v b)) [
                  | inl none_left ↦ cc (rw (none_left, upsert_here) at rw (w, t) at e1)
                  | inr ((flag, b'), u) ↦
                      let e2 = (rw (u, upsert_here) at rw (w, t) at e1) in
                      let l1 = record l { blocks = set l.blocks block (release_lock o b') } in
                      let m : SameModel l l1 = record {
                        slope = refl;
                        intercept = refl;
                        block_number = refl;
                        first_key = refl;
                        locked = refl;
                      } in
                      let (m', bs) = counted-SameModel acc flag l l1 m in
                      (
                        b,
                        b',
                        flag,
                        (counted a o acc flag l1).2,
                        n,
                        t,
                        u,
                        m',
                        bs,
                        sym (ap (λ c. c.leaves) (some-injective _ _ e2)),
                      )
                ]
              ]
            ]
      ]

  -- Where an upsert that is no retry has been: behind the leaf, or in it.
  abbrev pub Upserted : Option InnerSlot → Leaf o → List (Leaf o) → Double → ℕ → Changed o → Type 0
  Upserted acc l next k v r =
      ((c : Changed o) × (passes_on a o acc l next k ≡ true)
        × (upsert a o next k v none ≡ some c)
        × ((c.ret == 7) ≡ false)
        × (r.leaves ≡ l ∷ c.leaves))
      ⊎ ((passes_on a o acc l next k ≡ false) × Written l next (chosen_block a o acc l k) k v r)

  pub upsert-Upserted :
      (acc : Option InnerSlot) (l : Leaf o) (next : List (Leaf o)) (k : Double) (v : ℕ)
      (r : Changed o)
      → upsert a o (l ∷ next) k v acc ≡ some r
      → (r.ret == 7) ≡ false
      → (may_read a o acc l ≡ true) × Upserted acc l next k v r
  unfolding upsert behind
  upsert-Upserted acc l next k v r e done = elim (Bool-cases (may_read a o acc l)) [
    | inr t ↦ absurd (ground (arith, rw t at e))
    | inl t ↦ elim (Bool-cases (passes_on a o acc l next k)) [
      | inr p ↦ (t, inr (p, upsert_here-Written acc l next _ k v r (rw (t, p) at e) done))
      | inl p ↦ elim (Option-cases (upsert a o next k v none)) [
        | inl n ↦ cc (rw (t, p, n, behind) at e)
        | inr (c, n) ↦
            let e1 = (some-injective _ _ (rw (t, p, n, behind) at e)) in
            (t, inl (c, p, n, ap (λ x. x.ret == 7) e1 ∙ done, sym (ap (λ x. x.leaves) e1)))
      ]
    ]
  ]

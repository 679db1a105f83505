-- ===== src/PlinIndex/FindUpsert.antt =====
-- `LeafNode::find` after `LeafNode::upsert` (src/core/index/leaf_node.h): a chain of leaves as a map.
use plin_cloud_edge_device_l.Common.{
  ℕ, ◌≡◌, refl, sym, ap, ◌∙◌, ◌⊎◌, inl, inr, Bool, true, false, not, List, [], ◌∷◌, Option, none,
  some, arith, ◌==◌, if◌then◌else◌, Bool-cases, Option-cases, get_elem?, set, get_elem?-set_self,
  get_elem?-set_ne, lt-of_get_elem?,
}
use mathlib.Core.Option.{some-injective}
use plin_cloud_edge_device_l.Double.{Double, is_nan, double_eq}
use plin_cloud_edge_device_l.Plin.Predict.{Arith}
use plin_cloud_edge_device_l.PlinIndex.{free_flag}
use plin_cloud_edge_device_l.PlinIndex.Slot.{InnerSlot}
use plin_cloud_edge_device_l.PlinIndex.Leaf.{
  OverflowTree, Block, Leaf, is_locked, release_lock, block_find, block_upsert,
}
use plin_cloud_edge_device_l.PlinIndex.Chain.{
  chosen_block, passes_on, may_read, found_payload, find_here, find, Changed, upsert,
}
use plin_cloud_edge_device_l.PlinIndex.Block.{block_find-block_upsert}
use plin_cloud_edge_device_l.PlinIndex.Upsert.{
  same_block, same_passes_on, same_may_read, passes_on_head, Upserted, upsert-Upserted,
}

module _ (a : Arith) (o : OverflowTree) where
  find_here_lem :
      (l : Leaf o) (block : ℕ) (b : Block o) (j : Double) (p : ℕ)
      → get_elem? l.blocks block ≡ some b
      → is_locked o b ≡ false
      → find_here a o l block j p ≡ some (found_payload a o p (block_find o b j))
  unfolding find_here
  find_here_lem l block b j p e u = rw (e, find_here) (rw u refl)

  find_here_congr :
      (l l' : Leaf o) (block : ℕ) (j : Double) (p : ℕ)
      → get_elem? l'.blocks block ≡ get_elem? l.blocks block
      → find_here a o l' block j p ≡ find_here a o l block j p
  unfolding find_here
  find_here_congr l l' block j p e = elim (Option-cases (get_elem? l.blocks block)) [
    | inl n ↦ rw (e ∙ n, find_here) (rw (n, find_here) refl)
    | inr (b, n) ↦ rw (e ∙ n, find_here) (rw (n, find_here) refl)
  ]

  release_lock-is_locked : (b : Block o) → is_locked o (release_lock o b) ≡ false
  release_lock-is_locked b = ground arith

  pub find_step :
      (acc : Option InnerSlot) (l : Leaf o) (next : List (Leaf o)) (j : Double) (p : ℕ)
      → may_read a o acc l ≡ true
      → find a o (l ∷ next) j p acc ≡ (
          if passes_on a o acc l next j
          then find a o next j p none
          else find_here a o l (chosen_block a o acc l j) j p)
  find_step acc l next j p m = unfold find in rw m refl

  block_after :
      (l l' : Leaf o) (block : ℕ) (b b' : Block o) (flag : ℕ) (k j : Double) (v p : ℕ)
      → is_nan k ≡ false
      → (v == 0) ≡ false
      → double_eq j free_flag ≡ false
      → get_elem? l.blocks block ≡ some b
      → is_locked o b ≡ false
      → block_upsert o k v b ≡ some (flag, b')
      → l'.blocks ≡ set l.blocks block (release_lock o b')
      → find_here a o l' block j p
        ≡ (if double_eq k j then some (1, v) else find_here a o l block j p)
  unfolding found_payload block_find
  block_after l l' block b b' flag k j v p number payload used at_block free u e =
      let b2 = release_lock o b' in
      let there : get_elem? l'.blocks block ≡ some b2 =
        ap (λ bs. get_elem? bs block) e
        ∙ get_elem?-set_self l.blocks block b2 (lt-of_get_elem? l.blocks block at_block) in
      let (flag1, b1, u1, small, found) = block_find-block_upsert o k v b number payload in
      let same : b1 ≡ b' = ap (λ x. x.1) (some-injective _ _ (sym u1 ∙ u)) in
      let law : block_find o b2 j ≡ (if double_eq k j then some v else block_find o b j) =
        ap (λ x. block_find o (release_lock o x) j) (sym same) ∙ found j used in
      find_here_lem l' block b2 j p there (release_lock-is_locked b')
      ∙ rw (law, find_here_lem l block b j p at_block free)
          (elim (Bool-cases (double_eq k j)) [ inl t ↦ rw t refl | inr t ↦ rw t refl ])

  pub find_here_written :
      (l l' : Leaf o) (block c : ℕ) (b b' : Block o) (flag : ℕ) (k j : Double) (v p : ℕ)
      → is_nan k ≡ false
      → (v == 0) ≡ false
      → double_eq j free_flag ≡ false
      → (c ≡ block) ⊎ (double_eq k j ≡ false)
      → get_elem? l.blocks block ≡ some b
      → is_locked o b ≡ false
      → block_upsert o k v b ≡ some (flag, b')
      → l'.blocks ≡ set l.blocks block (release_lock o b')
      → find_here a o l' c j p ≡ (if double_eq k j then some (1, v) else find_here a o l c j p)
  find_here_written l l' block c b b' flag k j v p number payload used (inl same) at_block free u
        e =
      rw same (block_after l l' block b b' flag k j v p number payload used at_block free u e)
  find_here_written l l' block c b b' flag k j v p number payload used (inr other) at_block free u
        e =
      elim (Bool-cases (c == block)) [
        | inl t ↦
            let q : c ≡ block = ground (arith, t) in
            rw q (block_after l l' block b b' flag k j v p number payload used at_block free u e)
        | inr t ↦ rw other (
            find_here_congr l l' c j p
              (ap (λ bs. get_elem? bs c) e ∙ get_elem?-set_ne l.blocks _ (λ q. ground (arith, t))))
      ]

  -- After an upsert, the chain of leaves has the same first key.
  head_after :
      (acc : Option InnerSlot) (l : Leaf o) (next : List (Leaf o)) (k : Double) (v : ℕ)
      (r : Changed o)
      → Upserted a o acc l next k v r
      → (l' : Leaf o) × (next' : List (Leaf o)) × (r.leaves ≡ l' ∷ next')
        × (l'.first_key ≡ l.first_key)
  head_after acc l next k v r (inl (c, p, u, done, e)) = (l, c.leaves, e, refl)
  head_after acc l next k v r (inr (p, w)) =
      let (b, b', flag, l', at_block, free, u, m, bs, e) = w in (l', next, e, m.first_key)

  passes_on_after :
      (acc : Option InnerSlot) (l : Leaf o) (next : List (Leaf o)) (k j : Double) (v : ℕ)
      (c : Changed o)
      → upsert a o next k v none ≡ some c
      → (c.ret == 7) ≡ false
      → passes_on a o acc l c.leaves j ≡ passes_on a o acc l next j
  passes_on_after acc l [] k j v c u done = unfold upsert in cc u
  passes_on_after acc l (n ∷ next) k j v c u done =
      let (n', next', e, first) =
        head_after none n next k v c (upsert-Upserted a o none n next k v c u done).1 in
      rw e (passes_on_head a o acc l n n' next next' j first)

  -- Where the search for `j` goes the other way than that for `k`, they are no equal numbers.
  other_way :
      (acc : Option InnerSlot) (l : Leaf o) (next : List (Leaf o)) (k j : Double) (b : Bool)
      → (k ≡ j) ⊎ (double_eq k j ≡ false)
      → passes_on a o acc l next k ≡ b
      → passes_on a o acc l next j ≡ not b
      → double_eq k j ≡ false
  other_way acc l next k j b (inr other) p q = other
  other_way acc l next k j true (inl same) p q = absurd (cc (rw same at p, q))
  other_way acc l next k j false (inl same) p q = absurd (cc (rw same at p, q))

  same_chosen :
      (acc : Option InnerSlot) (l : Leaf o) (k j : Double)
      → (k ≡ j) ⊎ (double_eq k j ≡ false)
      → (chosen_block a o acc l j ≡ chosen_block a o acc l k) ⊎ (double_eq k j ≡ false)
  same_chosen acc l k j (inl same) = inl (ap (chosen_block a o acc l) (sym same))
  same_chosen acc l k j (inr other) = inr other

  -- An upsert that returns and asks for no retry puts the payload under the key, where a search that starts
  -- with the same leaf and accelerator finds it; the search for any other key returns what it did. The key
  -- is no NaN and its payload not 0, the key searched for is not that of a free slot, and the two differ in
  -- more than the sign of a zero or not at all.
  pub find-upsert :
      (c : List (Leaf o)) (k j : Double) (v p : ℕ) (acc : Option InnerSlot) (r : Changed o)
      → is_nan k ≡ false
      → (v == 0) ≡ false
      → double_eq j free_flag ≡ false
      → (k ≡ j) ⊎ (double_eq k j ≡ false)
      → upsert a o c k v acc ≡ some r
      → (r.ret == 7) ≡ false
      → find a o r.leaves j p acc ≡ (if double_eq k j then some (1, v) else find a o c j p acc)
  find-upsert [] k j v p acc r number payload used same e done = unfold upsert in cc e
  find-upsert (l ∷ next) k j v p acc r number payload used same e done =
      let (readable, there) = upsert-Upserted a o acc l next k v r e done in
      elim there [
        | inl (c, pk, u, done', es) ↦
            let ih = find-upsert next k j v p none c number payload used same u done' in
            rw es (
              find_step acc l c.leaves j p readable
              ∙ rw (passes_on_after acc l next k j v c u done', find_step acc l next j p readable)
                  (elim (Bool-cases (passes_on a o acc l next j)) [
                    | inl q ↦ rw q ih
                    | inr q ↦ rw (q, other_way acc l next k j true same pk q) refl
                  ]))
        | inr (pk, w) ↦
            let (b, b', flag, l', at_block, free, u, m, bs, es) = w in
            rw es (
              find_step acc l' next j p (same_may_read a o acc l l' m ∙ readable)
              ∙ rw (same_passes_on a o acc l l' next j m, find_step acc l next j p readable)
                  (elim (Bool-cases (passes_on a o acc l next j)) [
                    | inl q ↦ rw (q, other_way acc l next k j false same pk q) refl
                    | inr q ↦
                        rw (q, same_block a o acc l l' j m)
                          (find_here_written l l' _ _ b b' flag k j v p number payload used
                            (same_chosen acc l k j same) at_block free u bs)
                  ]))
      ]

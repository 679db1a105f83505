-- ===== src/PlinIndex/Returns.antt =====
-- That `LeafNode::find` and `LeafNode::upsert` (src/core/index/leaf_node.h) return, on leaves that no other
-- thread holds a lock of.
use plin_cloud_edge_device_l.Common.{
  ℕ, zero, suc, ◌^◌, ◌<◌, ◌≤◌, ◌≡◌, refl, ap, ◌∙◌, inl, inr, true, false, List, [], ◌∷◌, map,
  Option, none, some, arith, All, ◌==◌, Bool-cases, get_elem?, set, length, length-set,
  get_elem?-of_lt,
}
use mathlib.Core.Option.{some-injective}
use plin_cloud_edge_device_l.Double.{is_nan, Double}
use plin_cloud_edge_device_l.Plin.Predict.{Arith}
use plin_cloud_edge_device_l.PlinIndex.Slot
use plin_cloud_edge_device_l.PlinIndex.Slot.{InnerSlot}
use plin_cloud_edge_device_l.PlinIndex.Leaf.{
  OverflowTree, Block, Leaf, is_locked, release_lock, leaf_predict_block, block_find,
}
use plin_cloud_edge_device_l.PlinIndex.Block.{block_find-block_upsert}
use plin_cloud_edge_device_l.PlinIndex.Chain.{
  chosen_block, passes_on, may_read, may_write, found_payload, find_here, find, Changed, behind,
  counted, upsert_here, upsert,
}

module _ (o : OverflowTree) where
  -- A leaf of three blocks or more that no one has a lock of, or of a block of it.
  pub record IsReadyLeaf (l : Leaf o) : Type 0 where
    pub abandoned : l.abandoned ≡ false
    pub locked : l.locked ≡ 0
    pub three : 3 ≤ l.block_number
    pub small : l.block_number < 2 ^ 29
    pub blocks : length l.blocks ≡ l.block_number
    pub unlocked : (i : ℕ) (b : Block o) → get_elem? l.blocks i ≡ some b → is_locked o b ≡ false

  -- The accelerator, if there is one, is that of the leaf, and no one has a lock of it.
  abbrev pub IsReadyFor : Option InnerSlot → Leaf o → Type 0
  IsReadyFor none l = Unit {0}
  IsReadyFor (some s) l =
      (Slot.block_number s ≡ l.block_number)
      × (Slot.check_read_lock s ≡ true)
      × (Slot.check_write_lock s ≡ true)

  set_unlocked :
      (bs : List (Block o)) (i : ℕ) (b : Block o)
      → ((j : ℕ) (c : Block o) → get_elem? bs j ≡ some c → is_locked o c ≡ false)
      → (j : ℕ) (c : Block o) → get_elem? (set bs i (release_lock o b)) j ≡ some c
      → is_locked o c ≡ false
  set_unlocked [] i b h j c e = cc
  set_unlocked (x ∷ bs) zero b h zero c e = rw (← some-injective _ _ e) (ground arith)
  set_unlocked (x ∷ bs) zero b h (suc j) c e = h (suc j) c e
  set_unlocked (x ∷ bs) (suc i) b h zero c e = h zero c e
  set_unlocked (x ∷ bs) (suc i) b h (suc j) c e =
      set_unlocked bs i b (λ j' c' e'. h (suc j') c' e') j c e

module _ (a : Arith) (o : OverflowTree) where
  counted_ready :
      (acc : Option InnerSlot) (flag : ℕ) (l : Leaf o) (i : ℕ) (b : Block o)
      → IsReadyLeaf o l
      → let l' =
          (counted a o acc flag (record l { blocks = set l.blocks i (release_lock o b) })).2 in
        IsReadyLeaf o l' × (l'.block_number ≡ l.block_number)
  unfolding counted
  counted_ready acc flag l i b r =
      let u = set_unlocked o l.blocks i b r.unlocked in
      elim (Bool-cases (flag == 4)) [
        | inl t ↦ rw t (
          record {
            abandoned = r.abandoned;
            locked = r.locked;
            three = r.three;
            small = r.small;
            blocks = length-set l.blocks i _ ∙ r.blocks;
            unlocked = u;
          },
          refl,
        )
        | inr t ↦ rw t (
          record {
            abandoned = r.abandoned;
            locked = r.locked;
            three = r.three;
            small = r.small;
            blocks = length-set l.blocks i _ ∙ r.blocks;
            unlocked = u;
          },
          refl,
        )
      ]

  counted_ret :
      (acc : Option InnerSlot) (flag : ℕ) (l : Leaf o)
      → l.abandoned ≡ false
      → flag ≤ 4
      → ((counted a o acc flag l).0 == 7) ≡ false
  unfolding counted
  counted_ret none flag l h le = ground (arith, h, le)
  counted_ret (some s) flag l h le = ground (arith, h, le)

  chosen_block-lt :
      (acc : Option InnerSlot) (l : Leaf o) (j : Double)
      → IsReadyLeaf o l
      → IsReadyFor o acc l
      → chosen_block a o acc l j < length l.blocks
  unfolding chosen_block leaf_predict_block
  chosen_block-lt none l j r h = ground (arith, r.three, r.small, r.blocks)
  chosen_block-lt (some s) l j r h = ground (arith, r.three, r.small, r.blocks, h.0)

  may_read_ready :
      (acc : Option InnerSlot) (l : Leaf o)
      → IsReadyLeaf o l
      → IsReadyFor o acc l
      → may_read a o acc l ≡ true
  unfolding may_read
  may_read_ready none l r h = rw r.locked refl
  may_read_ready (some s) l r h = h.1

  may_write_ready :
      (acc : Option InnerSlot) (l : Leaf o)
      → IsReadyLeaf o l
      → IsReadyFor o acc l
      → may_write a o acc l ≡ true
  unfolding may_write
  may_write_ready none l r h = rw r.locked refl
  may_write_ready (some s) l r h = h.2

  -- The leaves are as long as before, block by block.
  abbrev pub block_numbers : List (Leaf o) → List ℕ
  block_numbers = map (λ l. l.block_number)

  -- What an upsert returns: no retry, and leaves that are ready as before.
  abbrev pub Upserts : List (Leaf o) → Option (Changed o) → Type 0
  Upserts c r =
      (x : Changed o) × (r ≡ some x)
      × ((x.ret == 7) ≡ false)
      × All (IsReadyLeaf o) x.leaves
      × (block_numbers x.leaves ≡ block_numbers c)

  upsert_here-Upserts :
      (acc : Option InnerSlot) (l : Leaf o) (next : List (Leaf o)) (k : Double) (v : ℕ)
      → is_nan k ≡ false
      → (v == 0) ≡ false
      → IsReadyLeaf o l
      → All (IsReadyLeaf o) next
      → IsReadyFor o acc l
      → Upserts (l ∷ next) (upsert_here a o acc l next (chosen_block a o acc l k) k v)
  upsert_here-Upserts acc l next k v number payload r rs h =
      let block = chosen_block a o acc l k in
      let (b, e) = get_elem?-of_lt l.blocks block (chosen_block-lt acc l k r h) in
      let (flag, b', u, small, law) = block_find-block_upsert o k v b number payload in
      let l1 = record l { blocks = set l.blocks block (release_lock o b') } in
      let (ret, split, l') = counted a o acc flag l1 in
      let (ready, same) = counted_ready acc flag l block b' r in
      (
        record { ret = ret; leaf_to_split = split; leaves = l' ∷ next },
        unfold upsert_here in
            rw (e, upsert_here)
              (rw (may_write_ready acc l r h, r.unlocked block b e) (rw (u, upsert_here) refl)),
        counted_ret acc flag l1 r.abandoned small,
        (ready, rs),
        ap (λ n. n ∷ block_numbers next) same,
      )

  behind-Upserts :
      (l : Leaf o) (next : List (Leaf o)) (r : Option (Changed o))
      → IsReadyLeaf o l
      → Upserts next r
      → Upserts (l ∷ next) (behind a o l r)
  behind-Upserts l next r ready (x, e, done, rs, same) = (
    record {
      ret = x.ret;
      leaf_to_split = elim x.leaf_to_split [ none ↦ none | some i ↦ some (suc i) ];
      leaves = l ∷ x.leaves;
    },
    rw e (unfold behind in refl),
    done,
    (ready, rs),
    ap (◌∷◌ l.block_number) same,
  )

  -- An upsert into leaves that no one has a lock of returns, for a key that is no NaN and a payload other
  -- than 0.
  pub upsert-Upserts :
      (l : Leaf o) (next : List (Leaf o)) (k : Double) (v : ℕ) (acc : Option InnerSlot)
      → is_nan k ≡ false
      → (v == 0) ≡ false
      → IsReadyLeaf o l
      → All (IsReadyLeaf o) next
      → IsReadyFor o acc l
      → Upserts (l ∷ next) (upsert a o (l ∷ next) k v acc)
  unfolding upsert
  upsert-Upserts l [] k v acc number payload r rs h =
      unfold passes_on in
      rw (may_read_ready acc l r h) (upsert_here-Upserts acc l [] k v number payload r rs h)
  upsert-Upserts l (n ∷ next) k v acc number payload r rs h =
      let here = upsert_here-Upserts acc l (n ∷ next) k v number payload r rs h in
      let further =
        behind-Upserts l (n ∷ next) (upsert a o (n ∷ next) k v none) r
          (upsert-Upserts n next k v none number payload rs.0 rs.1 tt) in
      elim (Bool-cases (passes_on a o acc l (n ∷ next) k)) [
        | inl t ↦ rw (may_read_ready acc l r h, t) further
        | inr f ↦ rw (may_read_ready acc l r h, f) here
      ]

  find_here_returns :
      (acc : Option InnerSlot) (l : Leaf o) (k : Double)
      → IsReadyLeaf o l
      → IsReadyFor o acc l
      → (x : Option ℕ) × ((p : ℕ)
          → find_here a o l (chosen_block a o acc l k) k p ≡ some (found_payload a o p x))
  find_here_returns acc l k r h =
      let (b, e) =
        get_elem?-of_lt l.blocks (chosen_block a o acc l k) (chosen_block-lt acc l k r h) in
      (block_find o b k, λ p. unfold find_here in rw (e, find_here) (rw (r.unlocked _ b e) refl))

  pub find_returns :
      (l : Leaf o) (next : List (Leaf o)) (k : Double) (acc : Option InnerSlot)
      → IsReadyLeaf o l
      → All (IsReadyLeaf o) next
      → IsReadyFor o acc l
      → (x : Option ℕ) × ((p : ℕ) → find a o (l ∷ next) k p acc ≡ some (found_payload a o p x))
  unfolding find
  find_returns l [] k acc r rs h =
      unfold passes_on in rw (may_read_ready acc l r h) (find_here_returns acc l k r h)
  find_returns l (n ∷ next) k acc r rs h =
      let here = find_here_returns acc l k r h in
      let further = find_returns n next k none rs.0 rs.1 tt in
      elim (Bool-cases (passes_on a o acc l (n ∷ next) k)) [
        | inl t ↦ rw (may_read_ready acc l r h, t) further
        | inr f ↦ rw (may_read_ready acc l r h, f) here
      ]

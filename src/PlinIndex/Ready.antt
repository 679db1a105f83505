-- ===== src/PlinIndex/Ready.antt =====
-- `PlinIndex` (src/core/index/plin_index.h) as a map: a sequence of calls of `upsert` while no other thread
-- holds a lock, and no split that one of them asks for has begun.
use plin_cloud_edge_device_l.Common.{
  ℕ, zero, suc, ◌≡◌, refl, sym, ap, ◌∙◌, inl, inr, true, false, List, [], ◌∷◌, ◌++◌, map, Option,
  none, some, All, ◌==◌, ◌>>=◌, Bool-cases, get_elem?, take, drop,
}
use mathlib.Core.Option.{some-injective}
use mathlib.Core.Path.{subst}
use plin_cloud_edge_device_l.Double.{is_nan, Double, double_lt}
use plin_cloud_edge_device_l.Plin.Predict.{Arith}
use plin_cloud_edge_device_l.PlinIndex.Slot
use plin_cloud_edge_device_l.PlinIndex.Slot.{InnerSlot}
use plin_cloud_edge_device_l.PlinIndex.Leaf.{OverflowTree, Leaf}
use plin_cloud_edge_device_l.PlinIndex.Chain
use plin_cloud_edge_device_l.PlinIndex.Chain.{Changed, found_payload}
use plin_cloud_edge_device_l.PlinIndex.Returns.{
  IsReadyLeaf, IsReadyFor, block_numbers, upsert-Upserts, find_returns,
}
use plin_cloud_edge_device_l.PlinIndex.Ends.{between, upsert_buffer-BufferUpserted}
use plin_cloud_edge_device_l.PlinIndex.Index.{
  LearnedIndex, accelerator_for, leaf_answer, inside, strictly_inside, with_leaves, found_or,
  find_in_buffer, find_in_buffer_net, find_at, find_inside, find, upsert_buffer, upsert_at,
  upsert_inside, upsert,
}

get_elem?-map :
    {o : OverflowTree} (ls : List (Leaf o)) (i n : ℕ)
    → get_elem? (map (λ l. l.block_number) ls) i ≡ some n
    → (l : Leaf o) × (get_elem? ls i ≡ some l)
      × (l.block_number ≡ n)
      × (drop i ls ≡ l ∷ drop (suc i) ls)
get_elem?-map [] i n e = cc
get_elem?-map (l ∷ ls) zero n e = (l, refl, some-injective _ _ e, refl)
get_elem?-map (l ∷ ls) (suc i) n e = get_elem?-map ls i n e

All-drop :
    {o : OverflowTree} (P : Leaf o → Type 0) (i : ℕ) (ls : List (Leaf o))
    → All P ls
    → All P (drop i ls)
All-drop P zero ls h = h
All-drop P (suc i) [] h = tt
All-drop P (suc i) (l ∷ ls) h = All-drop P i ls h.1

All-take_append :
    {o : OverflowTree} (P : Leaf o → Type 0) (i : ℕ) (ls rest : List (Leaf o))
    → All P ls
    → All P rest
    → All P (take i ls ++ rest)
All-take_append P zero ls rest h r = r
All-take_append P (suc i) [] rest h r = r
All-take_append P (suc i) (l ∷ ls) rest h r = (h.0, All-take_append P i ls rest h.1 r)

module _ (a : Arith) (o : OverflowTree) where
  numbers_kept :
      (i : ℕ) (ls rest : List (Leaf o))
      → block_numbers a o rest ≡ block_numbers a o (drop i ls)
      → block_numbers a o (take i ls ++ rest) ≡ block_numbers a o ls
  numbers_kept zero ls rest h = h
  numbers_kept (suc i) [] rest h = h
  numbers_kept (suc i) (l ∷ ls) rest h = ap (◌∷◌ l.block_number) (numbers_kept i ls rest h)

  -- No one has a lock, and each key of the leaves has an accelerator of a leaf.
  pub record IsReady (ix : LearnedIndex o) : Type 0 where
    pub leaves : All (IsReadyLeaf o) ix.leaves
    pub rebuilding : ix.rebuilding ≡ false
    pub routes :
        (k : Double)
        → inside a o ix k ≡ true
        → (acc : InnerSlot) × (accelerator_for a o ix k ≡ some acc)
          × (get_elem? (block_numbers a o ix.leaves) acc.ptr ≡ some (Slot.block_number acc))
          × (Slot.check_read_lock acc ≡ true)
          × (Slot.check_write_lock acc ≡ true)

  -- What an upsert returns, and that the index is ready as before.
  abbrev pub Kept : LearnedIndex o → Option (ℕ × Option ℕ × LearnedIndex o) → Type 0
  Kept ix r =
      (ret : ℕ) × (split : Option ℕ) × (ix' : LearnedIndex o) × (r ≡ some (ret, split, ix'))
      × IsReady ix'
      × (ix'.min_key ≡ ix.min_key)
      × (ix'.max_key ≡ ix.max_key)

  upsert_at_returns :
      (ix : LearnedIndex o) (k : Double) (v : ℕ) (acc : InnerSlot) (l : Leaf o) (x : Changed o)
      → get_elem? ix.leaves acc.ptr ≡ some l
      → l.locked ≡ 0
      → ix.rebuilding ≡ false
      → Chain.upsert a o (drop acc.ptr ix.leaves) k v (some acc) ≡ some x
      → (x.ret == 7) ≡ false
      → upsert_at a o ix k v acc
        ≡ some (x.ret, x.leaf_to_split, with_leaves a o ix acc.ptr x.leaves)
  upsert_at_returns ix k v acc l x at free idle u done =
      unfold upsert_at in rw (at, upsert_at) (rw (free, idle) (rw (u, upsert_at) (rw done refl)))

  -- The leaf that the accelerator of a key points to, and those behind it.
  abbrev Routed : LearnedIndex o → InnerSlot → Type 0
  Routed ix acc =
      (l : Leaf o) × (get_elem? ix.leaves acc.ptr ≡ some l)
      × (drop acc.ptr ix.leaves ≡ l ∷ drop (suc acc.ptr) ix.leaves)
      × IsReadyLeaf o l
      × All (IsReadyLeaf o) (drop (suc acc.ptr) ix.leaves)
      × IsReadyFor o (some acc) l

  routed :
      (ix : LearnedIndex o) (k : Double)
      → IsReady ix
      → inside a o ix k ≡ true
      → (acc : InnerSlot) × (accelerator_for a o ix k ≡ some acc)
        × (Slot.check_read_lock acc ≡ true)
        × Routed ix acc
  routed ix k w within =
      let (acc, e, n, rd, wr) = w.routes k within in
      let (l, at, same, d) = get_elem?-map ix.leaves acc.ptr (Slot.block_number acc) n in
      let all : All (IsReadyLeaf o) (l ∷ drop (suc acc.ptr) ix.leaves) =
        subst (All (IsReadyLeaf o)) d (All-drop (IsReadyLeaf o) acc.ptr ix.leaves w.leaves) in
      (acc, e, rd, (l, at, d, all.0, all.1, (sym same, rd, wr)))

  upsert_inside-Kept :
      (ix : LearnedIndex o) (k : Double) (v : ℕ)
      → is_nan k ≡ false
      → (v == 0) ≡ false
      → IsReady ix
      → inside a o ix k ≡ true
      → Kept ix (upsert_inside a o ix k v)
  upsert_inside-Kept ix k v number payload w within =
      let (acc, e, rd, (l, at, d, r, rs, h)) = routed ix k w within in
      let (x, u, done, ready, numbers) =
        upsert-Upserts a o l (drop (suc acc.ptr) ix.leaves) k v (some acc) number payload r rs h in
      let u' : Chain.upsert a o (drop acc.ptr ix.leaves) k v (some acc) ≡ some x = rw d u in
      (
        x.ret,
        x.leaf_to_split,
        with_leaves a o ix acc.ptr x.leaves,
        unfold upsert_inside in
            rw (e, upsert_inside)
              (upsert_at_returns ix k v acc l x at r.locked w.rebuilding u' done),
        record {
          leaves = All-take_append (IsReadyLeaf o) acc.ptr ix.leaves x.leaves w.leaves ready;
          rebuilding = w.rebuilding;
          routes = λ j h'.
              rw
                (numbers_kept acc.ptr ix.leaves x.leaves (numbers ∙ ap (block_numbers a o) (sym d)))
                (w.routes j h');
        },
        refl,
        refl,
      )

  upsert_buffer-Kept :
      (ix : LearnedIndex o) (k : Double) (v : ℕ)
      → is_nan k ≡ false
      → (v == 0) ≡ false
      → IsReady ix
      → Kept ix (do ix' ← upsert_buffer a o ix k v; some (0, none, ix'))
  upsert_buffer-Kept ix k v number payload w =
      let (ix', u, b) = upsert_buffer-BufferUpserted a o ix k v number payload in
      (
        0,
        none,
        ix',
        rw u refl,
        record {
          leaves = rw b.leaves w.leaves;
          rebuilding = rw b.rebuilding w.rebuilding;
          routes = rw (b.min_key, b.max_key, b.level, b.tree, b.leaves) w.routes;
        },
        b.min_key,
        b.max_key,
      )

  pub upsert-Kept :
      (ix : LearnedIndex o) (k : Double) (v : ℕ)
      → is_nan k ≡ false
      → (v == 0) ≡ false
      → IsReady ix
      → Kept ix (upsert a o ix k v)
  unfolding upsert
  upsert-Kept ix k v number payload w = elim (Bool-cases (strictly_inside a o ix k)) [
    | inl strict ↦
        rw strict
          (upsert_inside-Kept ix k v number payload w (between k ix.min_key ix.max_key strict))
    | inr outside ↦ rw outside (upsert_buffer-Kept ix k v number payload w)
  ]

  answered :
      (p : ℕ) (x : Option ℕ)
      → leaf_answer a o (some (found_payload a o p x)) ≡ some (found_or a o p x)
  unfolding found_payload
  answered p none = refl
  answered p (some v) = refl

  -- A search returns: what is under the key, or the caller's payload.
  pub find_total :
      (ix : LearnedIndex o) (k : Double)
      → IsReady ix
      → (x : Option ℕ) × ((p : ℕ) → find a o ix k p ≡ some (found_or a o p x))
  unfolding find
  find_total ix k w = elim (Bool-cases (inside a o ix k)) [
    | inr outside ↦ rw outside (
        unfold find_in_buffer_net find_in_buffer in
        elim (Bool-cases (double_lt k ix.min_key)) [
          | inl t ↦ rw t (o.find ix.left_buffer k, λ p. refl)
          | inr f ↦ rw f (o.find ix.right_buffer k, λ p. refl)
        ])
    | inl within ↦
        let (acc, e, rd, (l, at, d, r, rs, h)) = routed ix k w within in
        let (x, found) = find_returns a o l (drop (suc acc.ptr) ix.leaves) k (some acc) r rs h in
        let here : (p : ℕ) → find_at a o ix k p acc ≡ some (found_or a o p x) =
          λ p. unfold find_at in rw (rd, d, found p) (answered p x) in
        rw within (x, λ p. unfold find_inside in rw (e, find_inside) (here p))
  ]

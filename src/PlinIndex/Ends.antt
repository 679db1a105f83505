-- ===== src/PlinIndex/Ends.antt =====
-- `PlinIndex::find` and `PlinIndex::upsert` (src/core/index/plin_index.h) on all keys: those in the leaves,
-- those in the buffers, and the two ends of the range of the leaves.
use plin_cloud_edge_device_l.Common.{
  ℕ, ◌+◌, ◌%◌, ◌^◌, ◌≡◌, refl, sym, ap, ◌∙◌, ◌⊎◌, inl, inr, Bool, true, false, not, ◌&&◌, ◌||◌,
  Option, none, some, arith, ◌==◌, if◌then◌else◌, Bool-cases,
}
use mathlib.Core.Option.{some-injective}
use plin_cloud_edge_device_l.Double.{Double, is_nan, double_eq, double_le, double_lt}
use plin_cloud_edge_device_l.Plin.Predict.{Arith}
use plin_cloud_edge_device_l.PlinIndex.{free_flag}
use plin_cloud_edge_device_l.PlinIndex.Leaf.{OverflowTree}
use plin_cloud_edge_device_l.PlinIndex.Served.{inside-find_inside}
use plin_cloud_edge_device_l.PlinIndex.Index.{
  LearnedIndex, inside, strictly_inside, find_at, found_or, find_in_buffer, find_in_buffer_net,
  find_inside, find, upsert_buffer, upsert,
}

-- Between the ends, and at none of them.
pub between :
    (k lo hi : Double)
    → (double_lt lo k && double_lt k hi) ≡ true
    → (double_le lo k && double_le k hi) ≡ true
unfolding double_lt double_le
between k lo hi h = ground arith

not_between :
    (k lo hi : Double)
    → double_eq k lo ≡ false
    → double_eq k hi ≡ false
    → (double_lt lo k && double_lt k hi) ≡ false
    → (double_le lo k && double_le k hi) ≡ false
unfolding double_lt double_le double_eq
not_between k lo hi p q h = ground arith

at_end :
    (k lo hi : Double)
    → (double_eq k lo || double_eq k hi) ≡ true
    → (double_lt lo k && double_lt k hi) ≡ false
unfolding double_lt double_eq
at_end k lo hi h = ground arith

at_end_number : (k lo hi : Double) → (double_eq k lo || double_eq k hi) ≡ true → is_nan k ≡ false
unfolding double_eq
at_end_number k lo hi h = ground arith

-- Of two keys that a test tells apart, the first is no copy of the second.
told_apart :
    (f : Double → Bool) (k j : Double) (b : Bool)
    → (k ≡ j) ⊎ (double_eq k j ≡ false)
    → f k ≡ b
    → f j ≡ not b
    → double_eq k j ≡ false
told_apart f k j b (inr other) p q = other
told_apart f k j true (inl same) p q = absurd (ground (arith, sym p ∙ ap f same ∙ q))
told_apart f k j false (inl same) p q = absurd (ground (arith, sym p ∙ ap f same ∙ q))

module _ (a : Arith) (o : OverflowTree) where
  -- An upsert into a buffer, of a key that is no NaN with a payload other than 0, returns; it leaves the
  -- search in the leaves as it was and has the payload under the key in the buffer.
  pub record BufferUpserted (ix : LearnedIndex o) (k : Double) (v : ℕ) (ix' : LearnedIndex o)
      : Type 0 where
    pub min_key : ix'.min_key ≡ ix.min_key
    pub max_key : ix'.max_key ≡ ix.max_key
    pub leaves : ix'.leaves ≡ ix.leaves
    pub tree : ix'.tree ≡ ix.tree
    pub level : ix'.level ≡ ix.level
    pub rebuilding : ix'.rebuilding ≡ ix.rebuilding
    pub buffers :
        (j : Double) (p : ℕ)
        → (k ≡ j) ⊎ (double_eq k j ≡ false)
        → find_in_buffer_net a o ix' j p
          ≡ (if double_eq k j then (true, v) else find_in_buffer_net a o ix j p)

  found_after :
      (t t' : o.Tree) (k j : Double) (v p : ℕ)
      → o.find t' j ≡ (if double_eq k j then some v else o.find t j)
      → find_in_buffer a o t' j p ≡ (if double_eq k j then (true, v) else find_in_buffer a o t j p)
  unfolding find_in_buffer
  found_after t t' k j v p e = elim (Bool-cases (double_eq k j)) [
    | inl q ↦ ap (found_or a o p) e ∙ rw q refl
    | inr q ↦ ap (found_or a o p) e ∙ rw q refl
  ]

  pub upsert_buffer-BufferUpserted :
      (ix : LearnedIndex o) (k : Double) (v : ℕ)
      → is_nan k ≡ false
      → (v == 0) ≡ false
      → (ix' : LearnedIndex o) × (upsert_buffer a o ix k v ≡ some ix') × BufferUpserted ix k v ix'
  unfolding find_in_buffer_net upsert_buffer
  upsert_buffer-BufferUpserted ix k v number payload = elim (Bool-cases (double_lt k ix.min_key)) [
    | inl left ↦
        let (ret, t, u, which, law) = o.find-upsert ix.left_buffer k v number payload in
        (
          record ix {
            left_buffer = t;
            left_buffer_number =
                if ret == 4 then (ix.left_buffer_number + 1) % 2 ^ 32 else ix.left_buffer_number;
          },
          rw (left, u) refl,
          record {
            min_key = refl;
            max_key = refl;
            leaves = refl;
            tree = refl;
            level = refl;
            rebuilding = refl;
            buffers = λ j p same. elim (Bool-cases (double_lt j ix.min_key)) [
              | inl t' ↦ rw t' (found_after ix.left_buffer t k j v p (law j))
              | inr f ↦ rw (f, told_apart (λ x. double_lt x ix.min_key) k j true same left f) refl
            ];
          },
        )
    | inr right ↦
        let (ret, t, u, which, law) = o.find-upsert ix.right_buffer k v number payload in
        (
          record ix {
            right_buffer = t;
            right_buffer_number =
                if ret == 4 then (ix.right_buffer_number + 1) % 2 ^ 32 else ix.right_buffer_number;
          },
          rw (right, u) refl,
          record {
            min_key = refl;
            max_key = refl;
            leaves = refl;
            tree = refl;
            level = refl;
            rebuilding = refl;
            buffers = λ j p same. elim (Bool-cases (double_lt j ix.min_key)) [
              | inl t' ↦
                  rw (t', told_apart (λ x. double_lt x ix.min_key) k j false same right t') refl
              | inr f ↦ rw f (found_after ix.right_buffer t k j v p (law j))
            ];
          },
        )
  ]

  leaves_after :
      (ix ix' : LearnedIndex o) (k j : Double) (v p : ℕ)
      → BufferUpserted ix k v ix'
      → (inside a o ix' j ≡ inside a o ix j) × (find_inside a o ix' j p ≡ find_inside a o ix j p)
  unfolding find_inside find_at
  leaves_after ix ix' k j v p w =
      (rw (w.min_key, w.max_key) refl, rw (w.level, w.tree, w.leaves) refl)

  pub find_after_buffer :
      (ix ix' : LearnedIndex o) (k j : Double) (v p : ℕ)
      → (k ≡ j) ⊎ (double_eq k j ≡ false)
      → BufferUpserted ix k v ix'
      → find a o ix' j p ≡ (
          if inside a o ix j
          then find_inside a o ix j p
          else some (if double_eq k j then (true, v) else find_in_buffer_net a o ix j p))
  unfolding find
  find_after_buffer ix ix' k j v p same w =
      let (range, searched) = leaves_after ix ix' k j v p w in
      rw (range, searched, w.buffers j p same) refl

  -- After an upsert that returns, a search finds the new payload under the key and under every other key
  -- what it found before: for a key that is no NaN, that is not the least or the greatest of the leaves,
  -- with a payload other than 0. The key searched for is not that of a free slot, and the two differ in
  -- more than the sign of a zero or not at all.
  pub find-upsert_lem :
      (ix ix' : LearnedIndex o) (k j : Double) (v p ret : ℕ) (split : Option ℕ)
      → is_nan k ≡ false
      → (v == 0) ≡ false
      → double_eq j free_flag ≡ false
      → (k ≡ j) ⊎ (double_eq k j ≡ false)
      → double_eq k ix.min_key ≡ false
      → double_eq k ix.max_key ≡ false
      → upsert a o ix k v ≡ some (ret, split, ix')
      → find a o ix' j p ≡ (if double_eq k j then some (true, v) else find a o ix j p)
  unfolding upsert find
  find-upsert_lem ix ix' k j v p ret split number payload used same not_min not_max h =
      elim (Bool-cases (strictly_inside a o ix k)) [
        | inl strict ↦
            let (leaves, ptr, q, law) =
              inside-find_inside a o ix ix' k j v p ret split number payload used same
                (rw strict at h) in
            let within = between k ix.min_key ix.max_key strict in
            elim (Bool-cases (inside a o ix j)) [
              | inl t ↦ rw (q, t) (rw q at law)
              | inr f ↦
                  rw (q, f, told_apart (inside a o ix) k j true same within f)
                    (unfold find_in_buffer_net in refl)
            ]
        | inr outside ↦
            let (ix1, u, w) = upsert_buffer-BufferUpserted ix k v number payload in
            let q : ix1 ≡ ix' = ap (λ x. x.2) (some-injective _ _ (rw (outside, u) at h)) in
            let without = not_between k ix.min_key ix.max_key not_min not_max outside in
            rw (← q) (
              find_after_buffer ix ix1 k j v p same w ∙ elim (Bool-cases (inside a o ix j)) [
                | inl t ↦ rw (t, told_apart (inside a o ix) k j false same without t) refl
                | inr f ↦
                    rw f
                      (elim (Bool-cases (double_eq k j)) [ inl e ↦ rw e refl | inr e ↦ rw e refl ])
              ])
      ]

  -- At the ends of the leaves the two operations part: an upsert of the least or the greatest key of the
  -- leaves, with a payload other than 0, returns and starts no split, and a search for the key finds what it
  -- found before.
  pub find-upsert_end :
      (ix : LearnedIndex o) (k : Double) (v p : ℕ)
      → (v == 0) ≡ false
      → (double_eq k ix.min_key || double_eq k ix.max_key) ≡ true
      → inside a o ix k ≡ true
      → (ix' : LearnedIndex o) × (upsert a o ix k v ≡ some (0, none, ix'))
        × (find a o ix' k p ≡ find a o ix k p)
  unfolding upsert find
  find-upsert_end ix k v p payload end within =
      let number = at_end_number k ix.min_key ix.max_key end in
      let (ix', u, w) = upsert_buffer-BufferUpserted ix k v number payload in
      let (range, searched) = leaves_after ix ix' k k v p w in
      (ix', rw (at_end k ix.min_key ix.max_key end, u) refl, rw (range, searched, within) refl)

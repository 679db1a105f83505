-- ===== src/Btree/Lookup.antt =====
-- Records in the order of their keys, and what the leaves of src/core/index/b_plus.h do with them.
use plin_cloud_edge_device_l.Common.{
  ℕ, suc, ◌≤◌, ◌<◌, ◌≡◌, refl, sym, ap, ◌∙◌, Bool, true, false, [], ◌∷◌, Option, none, some, inl,
  inr, not, ◌&&◌, ltb, arith, leb, ◌==◌, if◌then◌else◌, length, get_elem?, Bool-cases, ==_iff,
}
use plin_cloud_edge_device_l.Double.{Double, is_nan, rank, double_le, double_eq}
use plin_cloud_edge_device_l.Btree.{
  cardinality, Records, count_values, first_not_below, lower_bound, leaf_lookup, looked_up,
  inserted_at, insert_pair, insert_in_node,
}

-- The first record with a key.
unfoldable pub find_record : Records → Double → Option ℕ
find_record [] key = none
find_record ((k, v) ∷ rs) key = if double_eq k key then some v else find_record rs key

-- The records with one more, or with another payload, at its place in their order.
unfoldable pub put_sorted : Records → Double → ℕ → Records
put_sorted [] key payload = (key, payload) ∷ []
put_sorted ((k, v) ∷ rs) key payload =
    let rest = put_sorted rs key payload in
    if double_le key k
    then (if double_eq k key then (k, payload) ∷ rs else (key, payload) ∷ (k, v) ∷ rs)
    else (k, v) ∷ rest

abbrev pub is_none : Option ℕ → Bool
is_none none = true
is_none (some v) = false

-- The keys go up, from `lo` on and below `hi`, and no payload is 0.
abbrev pub Rising : ℕ → ℕ → Records → Type 0
Rising lo hi [] = lo ≤ hi
Rising lo hi ((k, v) ∷ rs) =
    (is_nan k ≡ false) × (lo ≤ rank k) × ((v == 0) ≡ false) × Rising (suc (rank k)) hi rs

pub Rising_le : (lo hi : ℕ) (rs : Records) → Rising lo hi rs → lo ≤ hi
Rising_le lo hi [] w = w
Rising_le lo hi ((k, v) ∷ rs) (n, a, p, w) = omega (arith, a, Rising_le (suc (rank k)) hi rs w)

-- A test of two keys that are no NaN is one of their ranks.
pub le_rank :
    (k j : Double) → is_nan k ≡ false → is_nan j ≡ false → double_le k j ≡ leb (rank k) (rank j)
unfolding double_le
le_rank k j p q = rw (p, q) refl

pub eq_rank :
    (k j : Double) → is_nan k ≡ false → is_nan j ≡ false → double_eq k j ≡ (rank k == rank j)
unfolding double_eq
eq_rank k j p q = rw (p, q) refl

pub count_values-Rising : (lo hi : ℕ) (rs : Records) → Rising lo hi rs → count_values rs ≡ length rs
unfolding count_values
count_values-Rising lo hi [] w = refl
count_values-Rising lo hi ((k, v) ∷ rs) (n, a, p, w) =
    rw p (ap suc (count_values-Rising (suc (rank k)) hi rs w))

pub find_record_below :
    (lo hi : ℕ) (rs : Records) (j : Double)
    → is_nan j ≡ false
    → Rising lo hi rs
    → rank j < lo
    → find_record rs j ≡ none
unfolding find_record
find_record_below lo hi [] j number w h = refl
find_record_below lo hi ((k, v) ∷ rs) j number (n, a, p, w) h =
    let other : double_eq k j ≡ false = ground (arith, eq_rank k j n number, a, h) in
    rw other (find_record_below (suc (rank k)) hi rs j number w (omega (arith, a, h)))

looked_up_lem :
    (lo hi : ℕ) (rs : Records) (j : Double)
    → is_nan j ≡ false
    → Rising lo hi rs
    → looked_up (get_elem? rs (first_not_below rs j)) j ≡ find_record rs j
unfolding find_record first_not_below
looked_up_lem lo hi [] j number w = refl
looked_up_lem lo hi ((k, v) ∷ rs) j number (n, a, p, w) = elim (Bool-cases (double_le j k)) [
  | inr f ↦
      let other : double_eq k j ≡ false =
        ground (arith, eq_rank k j n number, le_rank j k number n, f) in
      rw (f, other) (looked_up_lem (suc (rank k)) hi rs j number w)
  | inl t ↦ elim (Bool-cases (double_eq k j)) [
    | inl e ↦ rw (t, e) refl
    | inr o ↦
        let below : rank j < suc (rank k) = ground (arith, le_rank j k number n, t) in
        rw (t, o, find_record_below (suc (rank k)) hi rs j number w below) refl
  ]
]

pub leaf_lookup-find_record :
    (lo hi : ℕ) (rs : Records) (j : Double)
    → is_nan j ≡ false
    → Rising lo hi rs
    → leaf_lookup rs j ≡ some (find_record rs j)
unfolding leaf_lookup lower_bound
leaf_lookup-find_record lo hi rs j number w =
    let whole : (length rs == count_values rs) ≡ true =
      (==_iff (length rs) (count_values rs)).1 (sym (count_values-Rising lo hi rs w)) in
    rw (whole, looked_up_lem lo hi rs j number w) refl

pub put_sorted-Rising :
    (lo hi : ℕ) (rs : Records) (k : Double) (v : ℕ)
    → is_nan k ≡ false
    → (v == 0) ≡ false
    → lo ≤ rank k
    → rank k < hi
    → Rising lo hi rs
    → Rising lo hi (put_sorted rs k v)
unfolding put_sorted
put_sorted-Rising lo hi [] k v number payload le lt w = (number, le, payload, omega (arith, lt))
put_sorted-Rising lo hi ((x, u) ∷ rs) k v number payload le lt (n, a, p, w) =
    elim (Bool-cases (double_le k x)) [
      | inr f ↦
          let above : suc (rank x) ≤ rank k = ground (arith, le_rank k x number n, f) in
          rw f (n, a, p, put_sorted-Rising (suc (rank x)) hi rs k v number payload above lt w)
      | inl t ↦ elim (Bool-cases (double_eq x k)) [
        | inl e ↦ rw (t, e) (n, a, payload, w)
        | inr o ↦
            let below : suc (rank k) ≤ rank x =
              ground (arith, le_rank k x number n, eq_rank x k n number, t, o) in
            rw (t, o) (number, le, payload, (n, below, p, w))
      ]
    ]

inserted_behind :
    (r : Double × ℕ) (rs : Records) (id : ℕ) (there : Option (Double × ℕ)) (k : Double) (v : ℕ)
    → inserted_at (r ∷ rs) (suc id) there k v
      ≡ ((inserted_at rs id there k v).0, r ∷ (inserted_at rs id there k v).1)
unfolding insert_pair
inserted_behind r rs id none k v = refl
inserted_behind r rs id (some (x, u)) k v = elim (Bool-cases (double_eq x k)) [
  | inl t ↦ rw t refl
  | inr f ↦ rw f refl
]

pub inserted_at_lem :
    (lo hi : ℕ) (rs : Records) (k : Double) (v : ℕ)
    → is_nan k ≡ false
    → Rising lo hi rs
    → inserted_at rs (first_not_below rs k) (get_elem? rs (first_not_below rs k)) k v
      ≡ (is_none (find_record rs k), put_sorted rs k v)
unfolding find_record first_not_below put_sorted insert_pair
inserted_at_lem lo hi [] k v number w = refl
inserted_at_lem lo hi ((x, u) ∷ rs) k v number (n, a, p, w) = elim (Bool-cases (double_le k x)) [
  | inr f ↦
      let other : double_eq x k ≡ false =
        ground (arith, eq_rank x k n number, le_rank k x number n, f) in
      rw (f, other)
        (inserted_behind (x, u) rs (first_not_below rs k) (get_elem? rs (first_not_below rs k)) k v
          ∙ ap (λ r. (r.0, (x, u) ∷ r.1)) (inserted_at_lem (suc (rank x)) hi rs k v number w))
  | inl t ↦ elim (Bool-cases (double_eq x k)) [
    | inl e ↦ rw (t, e) refl
    | inr o ↦
        let below : rank k < suc (rank x) = ground (arith, le_rank k x number n, t) in
        rw (t, o, find_record_below (suc (rank x)) hi rs k number w below) refl
  ]
]

pub insert_in_node-put_sorted :
    (lo hi : ℕ) (rs : Records) (k : Double) (v : ℕ)
    → is_nan k ≡ false
    → Rising lo hi rs
    → length rs < cardinality
    → insert_in_node rs k v ≡ some (is_none (find_record rs k), put_sorted rs k v)
unfolding insert_in_node lower_bound
insert_in_node-put_sorted lo hi rs k v number w small =
    let whole : (length rs == count_values rs) ≡ true =
      (==_iff (length rs) (count_values rs)).1 (sym (count_values-Rising lo hi rs w)) in
    let room : (is_none (find_record rs k) && not (ltb (length rs) cardinality)) ≡ false =
      ground (arith, small) in
    rw (whole, inserted_at_lem lo hi rs k v number w, room) refl

-- One more record, if the key is new.
pub length-put_sorted :
    (rs : Records) (k : Double) (v : ℕ) → length (put_sorted rs k v) ≤ suc (length rs)
unfolding put_sorted
length-put_sorted [] k v = omega arith
length-put_sorted ((x, u) ∷ rs) k v = elim (Bool-cases (double_le k x)) [
  | inr f ↦ rw f (omega (arith, length-put_sorted rs k v))
  | inl t ↦ elim (Bool-cases (double_eq x k)) [
    | inl e ↦ rw (t, e) (omega arith)
    | inr o ↦ rw (t, o) (omega arith)
  ]
]

-- As many records as before, if there is one with the key.
pub length-put_sorted_same :
    (lo hi : ℕ) (rs : Records) (k : Double) (v : ℕ)
    → is_nan k ≡ false
    → Rising lo hi rs
    → is_none (find_record rs k) ≡ false
    → length (put_sorted rs k v) ≡ length rs
unfolding put_sorted find_record
length-put_sorted_same lo hi [] k v number w there = absurd (ground (arith, there))
length-put_sorted_same lo hi ((x, u) ∷ rs) k v number (n, a, p, w) there =
    elim (Bool-cases (double_le k x)) [
      | inr f ↦
          let other : double_eq x k ≡ false =
            ground (arith, eq_rank x k n number, le_rank k x number n, f) in
          rw f
            (ap suc (length-put_sorted_same (suc (rank x)) hi rs k v number w (rw other at there)))
      | inl t ↦ elim (Bool-cases (double_eq x k)) [
        | inl e ↦ rw (t, e) refl
        | inr o ↦
            let below : rank k < suc (rank x) = ground (arith, le_rank k x number n, t) in
            absurd (
              ground
                (arith, (rw (o, find_record_below (suc (rank x)) hi rs k number w below) at there)))
      ]
    ]

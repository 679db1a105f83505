-- ===== src/Btree/Append.antt =====
-- Records in the order of their keys, page after page: how a search, an insertion and a range query
-- (src/core/index/b_plus.h) take the pages apart.
use plin_cloud_edge_device_l.Common.{
  ℕ, suc, ◌≤◌, ◌<◌, ◌≡◌, refl, ap, true, false, not, ◌&&◌, [], ◌∷◌, ◌++◌, some, inl, inr, arith,
  ◌==◌, if◌then◌else◌, Bool-cases,
}
use plin_cloud_edge_device_l.Double.{Double, is_nan, rank, double_le, double_eq, double_eq_congr}
use plin_cloud_edge_device_l.Btree.{Records, answers}
use plin_cloud_edge_device_l.Btree.Lookup.{
  find_record, put_sorted, Rising, Rising_le, le_rank, eq_rank, find_record_below,
}

pub Rising_from : (lo m hi : ℕ) (rs : Records) → lo ≤ m → Rising m hi rs → Rising lo hi rs
Rising_from lo m hi [] h w = omega (arith, h, w)
Rising_from lo m hi ((k, v) ∷ rs) h (n, a, p, w) = (n, omega (arith, h, a), p, w)

pub Rising-append :
    (lo m hi : ℕ) (xs ys : Records) → Rising lo m xs → Rising m hi ys → Rising lo hi (xs ++ ys)
Rising-append lo m hi [] ys wx wy = Rising_from lo m hi ys wx wy
Rising-append lo m hi ((k, v) ∷ xs) ys (n, a, p, wx) wy =
    (n, a, p, Rising-append (suc (rank k)) m hi xs ys wx wy)

-- Two parts of rising records, where the second starts with a key.
pub Rising_parts :
    (lo hi : ℕ) (xs ys : Records) (k : Double) (v : ℕ)
    → Rising lo hi (xs ++ ((k, v) ∷ ys))
    → Rising lo (rank k) xs × Rising (rank k) hi ((k, v) ∷ ys)
Rising_parts lo hi [] ys k v (n, a, p, w) = (a, (n, omega arith, p, w))
Rising_parts lo hi ((x, u) ∷ xs) ys k v (n, a, p, w) =
    let (l, r) = Rising_parts (suc (rank x)) hi xs ys k v w in ((n, a, p, l), r)

pub find_record-behind :
    (lo m : ℕ) (xs ys : Records) (j : Double)
    → is_nan j ≡ false
    → Rising lo m xs
    → m ≤ rank j
    → find_record (xs ++ ys) j ≡ find_record ys j
unfolding find_record
find_record-behind lo m [] ys j number w h = refl
find_record-behind lo m ((k, v) ∷ xs) ys j number (n, a, p, w) h =
    let other : double_eq k j ≡ false =
      ground (arith, eq_rank k j n number, Rising_le (suc (rank k)) m xs w, h) in
    rw other (find_record-behind (suc (rank k)) m xs ys j number w h)

pub find_record-before :
    (m hi : ℕ) (xs ys : Records) (j : Double)
    → is_nan j ≡ false
    → Rising m hi ys
    → rank j < m
    → find_record (xs ++ ys) j ≡ find_record xs j
unfolding find_record
find_record-before m hi [] ys j number w h = find_record_below m hi ys j number w h
find_record-before m hi ((k, v) ∷ xs) ys j number w h = elim (Bool-cases (double_eq k j)) [
  | inl t ↦ rw t refl
  | inr f ↦ rw f (find_record-before m hi xs ys j number w h)
]

pub put_sorted-behind :
    (lo m : ℕ) (xs ys : Records) (k : Double) (v : ℕ)
    → is_nan k ≡ false
    → Rising lo m xs
    → m ≤ rank k
    → put_sorted (xs ++ ys) k v ≡ xs ++ put_sorted ys k v
unfolding put_sorted
put_sorted-behind lo m [] ys k v number w h = refl
put_sorted-behind lo m ((x, u) ∷ xs) ys k v number (n, a, p, w) h =
    let above : double_le k x ≡ false =
      ground (arith, le_rank k x number n, Rising_le (suc (rank x)) m xs w, h) in
    rw above (ap (◌∷◌ (x, u)) (put_sorted-behind (suc (rank x)) m xs ys k v number w h))

put_sorted_first :
    (m hi : ℕ) (ys : Records) (k : Double) (v : ℕ)
    → is_nan k ≡ false
    → Rising m hi ys
    → rank k < m
    → put_sorted ys k v ≡ (k, v) ∷ ys
unfolding put_sorted
put_sorted_first m hi [] k v number w h = refl
put_sorted_first m hi ((x, u) ∷ ys) k v number (n, a, p, w) h =
    let below : double_le k x ≡ true = ground (arith, le_rank k x number n, a, h) in
    let other : double_eq x k ≡ false = ground (arith, eq_rank x k n number, a, h) in
    rw (below, other) refl

pub put_sorted-before :
    (m hi : ℕ) (xs ys : Records) (k : Double) (v : ℕ)
    → is_nan k ≡ false
    → Rising m hi ys
    → rank k < m
    → put_sorted (xs ++ ys) k v ≡ put_sorted xs k v ++ ys
unfolding put_sorted
put_sorted-before m hi [] ys k v number w h = put_sorted_first m hi ys k v number w h
put_sorted-before m hi ((x, u) ∷ xs) ys k v number w h = elim (Bool-cases (double_le k x)) [
  | inr f ↦ rw f (ap (◌∷◌ (x, u)) (put_sorted-before m hi xs ys k v number w h))
  | inl t ↦ elim (Bool-cases (double_eq x k)) [ inl e ↦ rw (t, e) refl | inr o ↦ rw (t, o) refl ]
]

-- A search after an insertion.
pub find_record-put_sorted :
    (lo hi : ℕ) (rs : Records) (k j : Double) (v : ℕ)
    → is_nan k ≡ false
    → is_nan j ≡ false
    → Rising lo hi rs
    → find_record (put_sorted rs k v) j ≡ (if double_eq k j then some v else find_record rs j)
unfolding find_record put_sorted
find_record-put_sorted lo hi [] k j v number other w = refl
find_record-put_sorted lo hi ((x, u) ∷ rs) k j v number other (n, a, p, w) =
    elim (Bool-cases (double_le k x)) [
      | inl t ↦ elim (Bool-cases (double_eq x k)) [
        | inl e ↦
            rw (t, e)
              (elim (Bool-cases (double_eq k j)) [
                | inl q ↦ rw (double_eq_congr x k j e, q) refl
                | inr q ↦ rw (double_eq_congr x k j e, q) refl
              ])
        | inr o ↦ rw (t, o) refl
      ]
      | inr f ↦
          let apart : double_eq x j ≡ true → double_eq k j ≡ false = λ e.
            ground
              (arith, eq_rank x j n other, eq_rank k j number other, le_rank k x number n, e, f) in
          rw (f, find_record-put_sorted (suc (rank x)) hi rs k j v number other w)
            (elim (Bool-cases (double_eq x j)) [ inl q ↦ rw (q, apart q) refl | inr q ↦ rw q refl ])
    ]

pub answers-append :
    (xs ys : Records) (lower upper : Double)
    → answers (xs ++ ys) lower upper ≡ answers xs lower upper ++ answers ys lower upper
unfolding answers
answers-append [] ys lower upper = refl
answers-append ((k, v) ∷ xs) ys lower upper =
    elim (Bool-cases (double_le lower k && (double_le k upper && not (v == 0)))) [
      | inl t ↦ rw t (ap (◌∷◌ (k, v)) (answers-append xs ys lower upper))
      | inr f ↦ rw f (answers-append xs ys lower upper)
    ]

-- Records below the range give no answers.
pub answers_below :
    (lo m : ℕ) (xs : Records) (lower upper : Double)
    → is_nan lower ≡ false
    → Rising lo m xs
    → m ≤ rank lower
    → answers xs lower upper ≡ []
unfolding answers
answers_below lo m [] lower upper number w h = refl
answers_below lo m ((k, v) ∷ xs) lower upper number (n, a, p, w) h =
    let below : double_le lower k ≡ false =
      ground (arith, le_rank lower k number n, Rising_le (suc (rank k)) m xs w, h) in
    rw below (answers_below (suc (rank k)) m xs lower upper number w h)

-- ===== src/Btree/Split.antt =====
-- A page of src/core/index/b_plus.h that is full, and its two halves.
use plin_cloud_edge_device_l.Common.{
  ℕ, zero, suc, ◌-◌, ◌/◌, ◌≤◌, ◌<◌, ◌≡◌, refl, sym, ap, ◌∙◌, false, inl, inr, List, [], ◌∷◌, ◌++◌,
  Option, none, some, arith, ltb, ltb→lt, length, take, drop, Bool-cases, take-append-drop,
  length-take, length-drop,
}
use plin_cloud_edge_device_l.Double.{Double, is_nan, rank}
use plin_cloud_edge_device_l.Btree.{
  cardinality, Value, Page, Records, all_data, page_data, first_key, split_if_full,
}
use plin_cloud_edge_device_l.Btree.Lookup.{Rising}
use plin_cloud_edge_device_l.Btree.Bounded.{Bounded}
use plin_cloud_edge_device_l.Btree.Sorted.{Sorted, all_data-append}

-- A page in order, of any length.
abbrev pub Core : (n : ℕ) → ℕ → ℕ → Page n → Type 0
Core zero lo hi rs = Rising lo hi rs
Core (suc n) lo hi rs = Bounded (Sorted n) lo hi rs

Core-Sorted :
    (n lo hi : ℕ) (rs : Page n) → Core n lo hi rs → length rs < cardinality → Sorted n lo hi rs
Core-Sorted zero lo hi rs w small = (w, small)
Core-Sorted (suc n) lo hi rs w small = (w, small)

-- The two halves of a page, at the first key of the second.
abbrev Halves : (n lo hi : ℕ) → Page n → ℕ → Type 0
Halves n lo hi rs m =
    let s = first_key (drop m rs) in
    (is_nan s ≡ false) × Core n lo (rank s) (take m rs) × Core n (rank s) hi (drop m rs)

records_halved :
    (m lo hi : ℕ) (rs : Records) → Rising lo hi rs → m < length rs → Halves zero lo hi rs m
unfolding first_key
records_halved m lo hi [] w lt = absurd (omega (arith, lt))
records_halved zero lo hi ((k, v) ∷ rs) (n, a, p, w) lt = (n, a, (n, omega arith, p, w))
records_halved (suc m) lo hi ((k, v) ∷ rs) (n, a, p, w) lt =
    let (number, l, r) = records_halved m (suc (rank k)) hi rs w (omega (arith, lt)) in
    (number, (n, a, p, l), r)

children_halved :
    (n m lo hi : ℕ) (s0 : Double) (c0 : Value (suc n)) (rs : List (Double × Value (suc n)))
    → Bounded (Sorted n) lo hi ((s0, c0) ∷ rs)
    → m < length rs
    → Halves (suc n) lo hi ((s0, c0) ∷ rs) (suc m)
unfolding first_key
children_halved n m lo hi s0 c0 [] b lt = absurd (omega (arith, lt))
children_halved n zero lo hi s0 c0 ((s, c) ∷ rs) (number, le, p, b) lt = (number, p, b)
children_halved n (suc m) lo hi s0 c0 ((s, c) ∷ rs) (number, le, p, b) lt =
    let (number', l, r) = children_halved n m (rank s) hi s c rs b (omega (arith, lt)) in
    (number', (number, le, p, l), r)

halves :
    (n m lo hi : ℕ) (rs : Page n) → Core n lo hi rs → suc m < length rs → Halves n lo hi rs (suc m)
halves zero m lo hi rs w lt = records_halved (suc m) lo hi rs w lt
halves (suc n) m lo hi [] w lt = absurd (omega (arith, lt))
halves (suc n) m lo hi ((s0, c0) ∷ rs) w lt =
    children_halved n m lo hi s0 c0 rs w (omega (arith, lt))

page_data_halved :
    (n m : ℕ) (rs : Page n) → page_data n (take m rs) ++ page_data n (drop m rs) ≡ page_data n rs
unfolding page_data
page_data_halved zero m rs = take-append-drop m rs
page_data_halved (suc n) m rs =
    sym (all_data-append (page_data n) (take m rs) (drop m rs))
    ∙ ap (all_data (page_data n)) (take-append-drop m rs)

-- A page and its sibling, if it has one, that lie between the bounds.
abbrev pub Siblings : (n lo hi : ℕ) → Page n → Option (Double × Page n) → Type 0
Siblings n lo hi node none = Sorted n lo hi node
Siblings n lo hi node (some (s, p)) =
    (is_nan s ≡ false) × Sorted n lo (rank s) node × Sorted n (rank s) hi p

abbrev pub grown_data : (n : ℕ) → Page n → Option (Double × Page n) → Records
grown_data n node none = page_data n node
grown_data n node (some (s, p)) = page_data n node ++ page_data n p

-- A page with at most one record too many is split into pages that are not full, with the same records.
pub split_if_full-Siblings :
    (n lo hi ret : ℕ) (rs : Page n)
    → Core n lo hi rs
    → length rs ≤ cardinality
    → let g = split_if_full n ret rs in
      (g.ret ≡ ret)
      × Siblings n lo hi g.node g.sibling
      × (grown_data n g.node g.sibling ≡ page_data n rs)
unfolding split_if_full
split_if_full-Siblings n lo hi ret rs w le = elim (Bool-cases (ltb (length rs) cardinality)) [
  | inl t ↦ rw t (refl, Core-Sorted n lo hi rs w (ltb→lt (length rs) cardinality t), refl)
  | inr f ↦
      let full : length rs ≡ 13 = ground (arith, f, le) in
      let at : length rs - length rs / 2 ≡ 7 = omega (arith, full) in
      let (number, l, r) = halves n 6 lo hi rs w (omega (arith, full)) in
      rw (f, at)
        (
          refl,
          (
            number,
            Core-Sorted n lo (rank (first_key (drop 7 rs))) (take 7 rs) l
                (omega (arith, length-take 7 rs)),
            Core-Sorted n (rank (first_key (drop 7 rs))) hi (drop 7 rs) r
                (omega (arith, length-drop 7 rs, full)),
          ),
          page_data_halved n 7 rs,
        )
]

-- ===== src/PlinIndex/Btrees.antt =====
-- The trees of a leaf and of the buffers are those of src/core/index/b_plus.h: `Btree` with its pages in order
-- and not full. What an operation leaves out of order is no tree to go on with.
use plin_cloud_edge_device_l.Common.{
  ℕ, zero, suc, ◌^◌, ◌≡◌, refl, ap, ◌∙◌, ◌⊎◌, inl, inr, Bool, true, false, not, ◌&&◌, List, [], ◌∷◌,
  Option, none, some, sym, arith, leb, ltb, ◌==◌, if◌then◌else◌, length, Bool-cases, Option-cases,
  get_elem?,
}
use mathlib.Core.Option.{some-injective}
use mathlib.Core.Path.{subst}
use plin_cloud_edge_device_l.Double.{Double, is_nan, rank, double_eq}
use plin_cloud_edge_device_l.Btree.{cardinality, Page, Records, BtreePlus, new_btree_plus}
use plin_cloud_edge_device_l.Btree
use plin_cloud_edge_device_l.Btree.Deletion
use plin_cloud_edge_device_l.Btree.Lookup.{Rising, find_record, is_none}
use plin_cloud_edge_device_l.Btree.Bounded.{Bounded}
use plin_cloud_edge_device_l.Btree.Sorted.{Sorted, IsBtree, find-get_data}
use plin_cloud_edge_device_l.Btree.Upsert.{upsert-put_sorted, find-upsert_tree}
use plin_cloud_edge_device_l.PlinIndex.Leaf.{OverflowTree}

unfoldable pub is_rising : ℕ → ℕ → Records → Bool
is_rising lo hi [] = leb lo hi
is_rising lo hi ((k, v) ∷ rs) =
    not (is_nan k) && leb lo (rank k) && not (v == 0) && is_rising (suc (rank k)) hi rs

unfoldable pub is_bounded : {A : Type 0} → (ℕ → ℕ → A → Bool) → ℕ → ℕ → List (Double × A) → Bool
is_bounded p lo hi [] = false
is_bounded p lo hi ((s, c) ∷ []) = p lo hi c
is_bounded p lo hi ((s, c) ∷ (s', c') ∷ rest) =
    not (is_nan s')
    && leb lo (rank s')
    && p lo (rank s') c
    && is_bounded p (rank s') hi ((s', c') ∷ rest)

unfoldable pub is_sorted : (n : ℕ) → ℕ → ℕ → Page n → Bool
is_sorted zero lo hi rs = is_rising lo hi rs && ltb (length rs) cardinality
is_sorted (suc n) lo hi rs = is_bounded (is_sorted n) lo hi rs && ltb (length rs) cardinality

is_rising-Rising : (lo hi : ℕ) (rs : Records) → is_rising lo hi rs ≡ true → Rising lo hi rs
unfolding is_rising
is_rising-Rising lo hi [] h = ground (arith, h)
is_rising-Rising lo hi ((k, v) ∷ rs) h = (
  ground (arith, h),
  ground (arith, h),
  ground (arith, h),
  is_rising-Rising (suc (rank k)) hi rs (ground (arith, h)),
)

Rising-is_rising : (lo hi : ℕ) (rs : Records) → Rising lo hi rs → is_rising lo hi rs ≡ true
unfolding is_rising
Rising-is_rising lo hi [] w = ground (arith, w)
Rising-is_rising lo hi ((k, v) ∷ rs) (n, a, p, w) =
    ground (arith, n, a, p, Rising-is_rising (suc (rank k)) hi rs w)

is_bounded-Bounded :
    {A : Type 0} (p : ℕ → ℕ → A → Bool) (P : ℕ → ℕ → A → Type 0)
    (sound : (lo hi : ℕ) (c : A) → p lo hi c ≡ true → P lo hi c) (lo hi : ℕ)
    (cs : List (Double × A))
    → is_bounded p lo hi cs ≡ true
    → Bounded P lo hi cs
unfolding is_bounded
is_bounded-Bounded p P sound lo hi [] h = cc h
is_bounded-Bounded p P sound lo hi ((s, c) ∷ []) h = sound lo hi c h
is_bounded-Bounded p P sound lo hi ((s, c) ∷ (s', c') ∷ rest) h = (
  ground (arith, h),
  ground (arith, h),
  sound lo (rank s') c (ground (arith, h)),
  is_bounded-Bounded p P sound (rank s') hi ((s', c') ∷ rest) (ground (arith, h)),
)

Bounded-is_bounded :
    {A : Type 0} (p : ℕ → ℕ → A → Bool) (P : ℕ → ℕ → A → Type 0)
    (complete : (lo hi : ℕ) (c : A) → P lo hi c → p lo hi c ≡ true) (lo hi : ℕ)
    (cs : List (Double × A))
    → Bounded P lo hi cs
    → is_bounded p lo hi cs ≡ true
unfolding is_bounded
Bounded-is_bounded p P complete lo hi [] w = absurd w
Bounded-is_bounded p P complete lo hi ((s, c) ∷ []) w = complete lo hi c w
Bounded-is_bounded p P complete lo hi ((s, c) ∷ (s', c') ∷ rest) (n, le, x, b) =
    let inner = complete lo (rank s') c x in
    let behind = Bounded-is_bounded p P complete (rank s') hi ((s', c') ∷ rest) b in
    ground (arith, n, le, inner, behind)

pub is_sorted-Sorted : (n lo hi : ℕ) (rs : Page n) → is_sorted n lo hi rs ≡ true → Sorted n lo hi rs
unfolding is_sorted
is_sorted-Sorted zero lo hi rs h =
    (is_rising-Rising lo hi rs (ground (arith, h)), ground (arith, h))
is_sorted-Sorted (suc n) lo hi rs h = (
  is_bounded-Bounded (is_sorted n) (Sorted n) (is_sorted-Sorted n) lo hi rs (ground (arith, h)),
  ground (arith, h),
)

Sorted-is_sorted : (n lo hi : ℕ) (rs : Page n) → Sorted n lo hi rs → is_sorted n lo hi rs ≡ true
unfolding is_sorted
Sorted-is_sorted zero lo hi rs (w, l) = ground (arith, Rising-is_rising lo hi rs w, l)
Sorted-is_sorted (suc n) lo hi rs (w, l) =
    ground (arith, Bounded-is_bounded (is_sorted n) (Sorted n) (Sorted-is_sorted n) lo hi rs w, l)

abbrev pub Tree : Type 0
Tree = (t : BtreePlus) × IsBtree t

-- A tree in which every search returns, or `none`.
abbrev pub in_order : BtreePlus → Option Tree
in_order t = elim (Bool-cases (is_sorted t.height 0 (2 ^ 64) t.root)) [
  | inl e ↦ some (t, is_sorted-Sorted t.height 0 (2 ^ 64) t.root e)
  | inr e ↦ none
]

abbrev pub kept {ℓ} : {A : Type ℓ} → Option (A × BtreePlus) → Option (A × Tree)
kept none = none
kept (some (x, t)) = elim (in_order t) [ none ↦ none | some t' ↦ some (x, t') ]

abbrev pub found : Option (Option ℕ) → Option ℕ
found none = none
found (some x) = x

abbrev pub empty : Tree
unfolding new_btree_plus
empty = (new_btree_plus, (omega arith, omega arith))

abbrev pub find : Tree → Double → Option ℕ
find (t, w) key = found (Btree.find t key)

abbrev pub upsert : Tree → Double → ℕ → Option (ℕ × Tree)
upsert (t, w) key payload = kept (Btree.upsert t key payload)

abbrev pub delete_entry : Tree → Double → Option (Bool × Tree)
delete_entry (t, w) key = kept (Btree.Deletion.delete_entry t key)

-- A search in a tree in order returns: the program's own search does, with the same answer.
pub find-returns :
    (t : BtreePlus) (w : IsBtree t) (j : Double)
    → is_nan j ≡ false
    → Btree.find t j ≡ some (find (t, w) j)
find-returns t w j number = rw (find-get_data t j w number) refl

pub find_empty : (k : Double) → find empty k ≡ none
unfolding Btree.find new_btree_plus Btree.find_leaf_page Btree.leaf_lookup Btree.lower_bound
    Btree.count_values
find_empty k = refl

looked_up_nan :
    (r : Option (Double × ℕ)) (j : Double) → is_nan j ≡ true → Btree.looked_up r j ≡ none
unfolding double_eq
looked_up_nan none j n = refl
looked_up_nan (some (k, v)) j n = ground (arith, n)

-- A NaN is not found.
find_nan : (t : BtreePlus) (j : Double) → is_nan j ≡ true → found (Btree.find t j) ≡ none
unfolding Btree.find Btree.leaf_lookup
find_nan t j n = elim (Option-cases (Btree.find_leaf_page t.height t.root j)) [
  | inl e ↦ rw e refl
  | inr (leaf, e) ↦ elim (Option-cases (Btree.lower_bound leaf j)) [
    | inl e' ↦ rw (e, e') refl
    | inr (id, e') ↦ rw (e, e') (looked_up_nan (get_elem? leaf id) j n)
  ]
]

in_order-IsBtree : (t : BtreePlus) → IsBtree t → (w : IsBtree t) × (in_order t ≡ some (t, w))
in_order-IsBtree t w =
    elim (Bool-cases (is_sorted t.height 0 (2 ^ 64) t.root))
      as (λ c.
        (w' : IsBtree t) × (elim c as (λ x. Option Tree) [
          | inl e ↦ some (t, is_sorted-Sorted t.height 0 (2 ^ 64) t.root e)
          | inr e ↦ none
        ]
          ≡ some (t, w'))) [
            | inl e ↦ (is_sorted-Sorted t.height 0 (2 ^ 64) t.root e, refl)
            | inr e ↦ absurd (cc (Sorted-is_sorted t.height 0 (2 ^ 64) t.root w, e))
          ]

found_congr :
    (b : Bool) (v : ℕ) (x y : Option (Option ℕ))
    → x ≡ (if b then some (some v) else y)
    → found x ≡ (if b then some v else found y)
found_congr true v x y h = ap found h
found_congr false v x y h = ap found h

nan_apart : (k j : Double) → is_nan j ≡ true → double_eq k j ≡ false
unfolding double_eq
nan_apart k j h = ground (arith, h)

pub find-upsert_kept :
    (t : Tree) (k : Double) (v : ℕ)
    → is_nan k ≡ false
    → (v == 0) ≡ false
    → (ret : ℕ) × (t' : Tree) × (upsert t k v ≡ some (ret, t'))
      × ((ret ≡ 3) ⊎ (ret ≡ 4))
      × ((j : Double) → find t' j ≡ (if double_eq k j then some v else find t j))
find-upsert_kept (t, w) k v number payload =
    let (t1, e, ordered, same) = upsert-put_sorted t k v w number payload in
    let (w1, q) = in_order-IsBtree t1 ordered in
    let new = is_none (find_record (Btree.get_data t) k) in
    (
      if new then 4 else 3,
      (t1, w1),
      rw (e, kept) (rw (q, kept) refl),
      elim (Bool-cases new) [ inl n ↦ inr (rw n refl) | inr n ↦ inl (rw n refl) ],
      λ j. elim (Bool-cases (is_nan j)) [
        | inl n ↦ rw (nan_apart k j n, find_nan t j n) (find_nan t1 j n)
        | inr n ↦
            let (ret2, t2, e2, law) = find-upsert_tree t k j v w number n payload in
            let z : t2 ≡ t1 = ap (λ x. x.1) (some-injective _ _ (sym e2 ∙ e)) in
            found_congr (double_eq k j) v (Btree.find t1 j) (Btree.find t j) (
              subst
                (λ x. Btree.find x j ≡ (if double_eq k j then some (some v) else Btree.find t j)) z
                law)
      ],
    )

-- The trees of the program, for the leaves and for the buffers.
abbrev pub btrees : OverflowTree
btrees = record {
  Tree = Tree;
  empty = empty;
  find = find;
  upsert = upsert;
  delete_entry = delete_entry;
  find-empty = find_empty;
  find-upsert = find-upsert_kept;
}

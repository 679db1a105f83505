-- ===== src/Btree/Sorted.antt =====
-- Trees of src/core/index/b_plus.h with all their keys in order, and how `find` and `range_query` go down
-- in them.
use plin_cloud_edge_device_l.Common.{
  ℕ, zero, suc, ◌^◌, ◌≤◌, ◌<◌, ◌≡◌, refl, sym, ap, ◌∙◌, inl, inr, false, leb, Bool-cases,
  if◌then◌else◌, List, [], ◌∷◌, ◌++◌, some, arith, length, get_elem?, drop, append_assoc,
}
use plin_cloud_edge_device_l.Double.{Double, is_nan, rank}
use plin_cloud_edge_device_l.Btree.{
  cardinality, Page, Records, BtreePlus, all_data, page_data, get_data, child_rank, find_leaf_page,
  leaf_lookup, find, data_from, answers, range_query,
}
use plin_cloud_edge_device_l.Btree.Lookup.{Rising, le_rank, find_record, leaf_lookup-find_record}
use plin_cloud_edge_device_l.Btree.Append.{
  find_record-behind, find_record-before, answers-append, answers_below,
}
use plin_cloud_edge_device_l.Btree.Bounded.{Bounded, Bounded-Rising, Focus, focus}

-- Each page is in order, between its bounds, and not full.
abbrev pub Sorted : (n : ℕ) → ℕ → ℕ → Page n → Type 0
Sorted zero lo hi rs = Rising lo hi rs × (length rs < cardinality)
Sorted (suc n) lo hi rs = Bounded (Sorted n) lo hi rs × (length rs < cardinality)

-- Of the whole tree, for the keys of all doubles.
abbrev pub IsBtree : BtreePlus → Type 0
IsBtree t = Sorted t.height 0 (2 ^ 64) t.root

pub rank_lt : (k : Double) → is_nan k ≡ false → rank k < 2 ^ 64
unfolding rank
rank_lt k h = ground arith

pub all_data-append :
    {A : Type 0} (f : A → Records) (xs ys : List (Double × A))
    → all_data f (xs ++ ys) ≡ all_data f xs ++ all_data f ys
all_data-append f [] ys = refl
all_data-append f ((k, c) ∷ xs) ys =
    ap (λ r. f c ++ r) (all_data-append f xs ys)
    ∙ sym (append_assoc (f c) (all_data f xs) (all_data f ys))

get_elem?-middle :
    {A : Type 0} (before : List A) (a : A) (behind : List A)
    → (get_elem? (before ++ (a ∷ behind)) (length before) ≡ some a)
      × (drop (suc (length before)) (before ++ (a ∷ behind)) ≡ behind)
get_elem?-middle [] a behind = (refl, refl)
get_elem?-middle (x ∷ before) a behind = get_elem?-middle before a behind

pub Sorted-Rising : (n lo hi : ℕ) (rs : Page n) → Sorted n lo hi rs → Rising lo hi (page_data n rs)
unfolding page_data
Sorted-Rising zero lo hi rs w = w.0
Sorted-Rising (suc n) lo hi rs w =
    Bounded-Rising (Sorted n) (page_data n) (Sorted-Rising n) rs lo hi w.0

-- The child of a key, in an inner page.
pub focused :
    (n lo hi : ℕ) (rs : Page (suc n)) (k : Double)
    → is_nan k ≡ false
    → lo ≤ rank k
    → rank k < hi
    → Sorted (suc n) lo hi rs
    → Focus (Sorted n) (page_data n) (Sorted-Rising n) lo hi rs k
focused n lo hi [] k number above below w = absurd w.0
focused n lo hi ((s, c) ∷ rest) k number above below w =
    focus (Sorted n) (page_data n) (Sorted-Rising n) rest lo hi s c k number above below w.0

module _ (n lo hi : ℕ) (rs : Page (suc n)) (k : Double)
    (x : Focus (Sorted n) (page_data n) (Sorted-Rising n) lo hi rs k) where
  pub focused_child : get_elem? rs (child_rank rs k) ≡ some (x.key, x.child)
  focused_child = rw (x.place, x.whole) (get_elem?-middle x.before (x.key, x.child) x.behind).0

  focused_behind : drop (suc (child_rank rs k)) rs ≡ x.behind
  focused_behind = rw (x.place, x.whole) (get_elem?-middle x.before (x.key, x.child) x.behind).1

  pub focused_data :
      page_data (suc n) rs
      ≡ all_data (page_data n) x.before ++ (page_data n x.child ++ all_data (page_data n) x.behind)
  unfolding page_data
  focused_data = ap (all_data (page_data n)) x.whole ∙ all_data-append (page_data n) x.before _

-- The leaf for a key finds what a search of all records finds.
abbrev Finds : (n : ℕ) → Page n → Double → Type 0
Finds n rs j =
    (leaf : Records) × (find_leaf_page n rs j ≡ some leaf)
    × (leaf_lookup leaf j ≡ some (find_record (page_data n rs) j))

find_leaf_page-Finds :
    (n lo hi : ℕ) (rs : Page n) (j : Double)
    → is_nan j ≡ false
    → lo ≤ rank j
    → rank j < hi
    → Sorted n lo hi rs
    → Finds n rs j
unfolding find_leaf_page
find_leaf_page-Finds zero lo hi rs j number above below w =
    (rs, refl, unfold page_data in leaf_lookup-find_record lo hi rs j number w.0)
find_leaf_page-Finds (suc n) lo hi rs j number above below w =
    let x = focused n lo hi rs j number above below w in
    let (leaf, e, found) =
      find_leaf_page-Finds n x.from x.to x.child j number x.above x.below x.inner in
    let front =
      find_record-behind lo x.from (all_data (page_data n) x.before)
        (page_data n x.child ++ all_data (page_data n) x.behind) j number x.data_before x.above in
    let back =
      find_record-before x.to hi (page_data n x.child) (all_data (page_data n) x.behind) j number
        x.data_behind x.below in
    (
      leaf,
      rw (focused_child n lo hi rs j x, find_leaf_page) e,
      found
          ∙ ap some (sym (ap (λ r. find_record r j) (focused_data n lo hi rs j x) ∙ front ∙ back)),
    )

-- A search in a tree in order finds what a search of all its records finds, for a key that is no NaN.
pub find-get_data :
    (t : BtreePlus) (j : Double)
    → IsBtree t
    → is_nan j ≡ false
    → find t j ≡ some (find_record (get_data t) j)
unfolding find get_data
find-get_data t j w number =
    let (leaf, e, found) =
      find_leaf_page-Finds t.height 0 (2 ^ 64) t.root j number (omega arith) (rank_lt j number) w in
    rw e found

answers-data_from :
    (n lo hi : ℕ) (rs : Page n) (lower upper : Double)
    → is_nan lower ≡ false
    → lo ≤ rank lower
    → rank lower < hi
    → Sorted n lo hi rs
    → answers (data_from n rs lower) lower upper ≡ answers (page_data n rs) lower upper
unfolding data_from
answers-data_from zero lo hi rs lower upper number above below w = unfold page_data in refl
answers-data_from (suc n) lo hi rs lower upper number above below w =
    let x = focused n lo hi rs lower number above below w in
    let whole_of = all_data (page_data n) in
    let here = answers-data_from n x.from x.to x.child lower upper number x.above x.below x.inner in
    let child = answers-append (data_from n x.child lower) (whole_of x.behind) lower upper in
    let whole =
      answers-append (whole_of x.before) (page_data n x.child ++ whole_of x.behind) lower upper in
    let none_before =
      answers_below lo x.from (whole_of x.before) lower upper number x.data_before x.above in
    let behind = answers-append (page_data n x.child) (whole_of x.behind) lower upper in
    rw (focused_child n lo hi rs lower x, data_from)
      (ap (λ r. answers (data_from n x.child lower ++ whole_of r) lower upper)
          (focused_behind n lo hi rs lower x)
        ∙ child
        ∙ ap (λ r. r ++ answers (whole_of x.behind) lower upper) here
        ∙ sym behind
        ∙ sym (
            ap (λ r. r ++ answers (page_data n x.child ++ whole_of x.behind) lower upper)
              none_before)
        ∙ sym whole
        ∙ sym (ap (λ r. answers r lower upper) (focused_data n lo hi rs lower x)))

-- The records whose keys stand from the one rank up to the other, both included, in their order.
abbrev pub within_ranks : ℕ → ℕ → Records → Records
within_ranks lo hi [] = []
within_ranks lo hi ((k, v) ∷ rs) =
    let rest = within_ranks lo hi rs in
    if leb lo (rank k) then (if leb (rank k) hi then (k, v) ∷ rest else rest) else rest

answers-within_ranks :
    (lo hi : ℕ) (rs : Records) (lower upper : Double)
    → is_nan lower ≡ false
    → is_nan upper ≡ false
    → Rising lo hi rs
    → answers rs lower upper ≡ within_ranks (rank lower) (rank upper) rs
unfolding answers
answers-within_ranks lo hi [] lower upper p q w = refl
answers-within_ranks lo hi ((k, v) ∷ rs) lower upper p q (n, a, x, w) =
    let ih = answers-within_ranks (suc (rank k)) hi rs lower upper p q w in
    rw (le_rank lower k p n, le_rank k upper n q, x, ih)
      (elim (Bool-cases (leb (rank lower) (rank k))) [
        | inr f ↦ rw f refl
        | inl t ↦ elim (Bool-cases (leb (rank k) (rank upper))) [
          | inl t' ↦ rw (t, t') refl
          | inr f ↦ rw (t, f) refl
        ]
      ])

-- A range query in a tree in order, with bounds that are no NaN, answers with all its records whose keys
-- are in the range, both bounds included, and in their order, although it starts at the leaf for the lower
-- bound. Keys are compared by their ranks in the order of the doubles.
pub range_query-get_data :
    (t : BtreePlus) (lower upper : Double)
    → IsBtree t
    → is_nan lower ≡ false
    → is_nan upper ≡ false
    → range_query t lower upper ≡ within_ranks (rank lower) (rank upper) (get_data t)
unfolding range_query get_data
range_query-get_data t lower upper w number number' =
    answers-data_from t.height 0 (2 ^ 64) t.root lower upper number (omega arith)
      (rank_lt lower number) w
    ∙ answers-within_ranks 0 (2 ^ 64) (page_data t.height t.root) lower upper number number'
        (Sorted-Rising t.height 0 (2 ^ 64) t.root w)

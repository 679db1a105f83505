-- ===== src/Btree/Merged.antt =====
-- Two leaves that `btree_plus::delete_entry` (src/core/index/b_plus.h) merges, and the next insertion.
use plin_cloud_edge_device_l.Common.{
  ℕ, zero, suc, ◌+◌, ◌^◌, ◌<◌, ◌≡◌, refl, sym, ap, true, false, inl, inr, [], ◌∷◌, ◌++◌, none, some,
  arith, leb, if◌then◌else◌, length, get_elem?, Bool-cases, ==_iff, length-append, append-nil,
}
use plin_cloud_edge_device_l.Double.{Double, is_nan, rank, double_lt, double_le, double_eq}
use plin_cloud_edge_device_l.Btree.{
  cardinality, Records, BtreePlus, first_not_below, lower_bound, child_rank, first_above,
  insert_in_node, upsert_page, upsert, page_data, get_data,
}
use plin_cloud_edge_device_l.Btree.Lookup.{
  Rising, find_record, is_none, le_rank, eq_rank, count_values-Rising, inserted_at_lem,
  find_record_below,
}
use plin_cloud_edge_device_l.Btree.Append.{Rising-append, Rising_from}
use plin_cloud_edge_device_l.Btree.Sorted.{IsBtree}
use plin_cloud_edge_device_l.Btree.Deletion.{
  erase_pair, remove, page_lower_bound, coalesce, coalesce_or_redistribute, delete_from,
  adjust_root, delete_entry,
}

-- The records without the first one with a key.
unfoldable pub without_key : Records → Double → Records
without_key [] key = []
without_key ((k, v) ∷ rs) key =
    let rest = without_key rs key in if double_eq k key then rs else (k, v) ∷ rest

without_key-Rising :
    (lo hi : ℕ) (rs : Records) (k : Double) → Rising lo hi rs → Rising lo hi (without_key rs k)
unfolding without_key
without_key-Rising lo hi [] k w = w
without_key-Rising lo hi ((x, u) ∷ rs) k (n, a, p, w) = elim (Bool-cases (double_eq x k)) [
  | inl t ↦ rw t (Rising_from lo (suc (rank x)) hi rs (omega (arith, a)) w)
  | inr f ↦ rw f (n, a, p, without_key-Rising (suc (rank x)) hi rs k w)
]

length-without_key :
    (rs : Records) (k : Double)
    → is_none (find_record rs k) ≡ false
    → suc (length (without_key rs k)) ≡ length rs
unfolding without_key find_record
length-without_key [] k there = absurd (ground (arith, there))
length-without_key ((x, u) ∷ rs) k there = elim (Bool-cases (double_eq x k)) [
  | inl t ↦ rw t refl
  | inr f ↦ rw f (ap suc (length-without_key rs k (rw f at there)))
]

without_key-append :
    (xs ys : Records) (k : Double)
    → is_none (find_record xs k) ≡ false
    → without_key (xs ++ ys) k ≡ without_key xs k ++ ys
unfolding without_key find_record
without_key-append [] ys k there = absurd (ground (arith, there))
without_key-append ((x, u) ∷ xs) ys k there = elim (Bool-cases (double_eq x k)) [
  | inl t ↦ rw t refl
  | inr f ↦ rw f (ap (◌∷◌ (x, u)) (without_key-append xs ys k (rw f at there)))
]

-- The record at the place of a key that is there.
erased :
    (lo hi : ℕ) (rs : Records) (k : Double)
    → is_nan k ≡ false
    → Rising lo hi rs
    → is_none (find_record rs k) ≡ false
    → (x : Double) × (u : ℕ) × (get_elem? rs (first_not_below rs k) ≡ some (x, u))
      × (double_eq x k ≡ true)
      × (erase_pair rs (first_not_below rs k) ≡ without_key rs k)
unfolding without_key find_record first_not_below erase_pair
erased lo hi [] k number w there = absurd (ground (arith, there))
erased lo hi ((x, u) ∷ rs) k number (n, a, p, w) there = elim (Bool-cases (double_le k x)) [
  | inr f ↦
      let other : double_eq x k ≡ false =
        ground (arith, eq_rank x k n number, le_rank k x number n, f) in
      let (y, z, at, same, e) = erased (suc (rank x)) hi rs k number w (rw other at there) in
      rw (f, other) (y, z, at, same, ap (◌∷◌ (x, u)) e)
  | inl t ↦ elim (Bool-cases (double_eq x k)) [
    | inl e ↦ rw (t, e) (x, u, refl, e, refl)
    | inr o ↦
        let below : rank k < suc (rank x) = ground (arith, le_rank k x number n, t) in
        absurd (
          ground
            (arith, (rw (o, find_record_below (suc (rank x)) hi rs k number w below) at there)))
  ]
]

-- All places of a leaf in order can be searched.
lower_bound-Rising :
    (lo hi : ℕ) (rs : Records) (k : Double)
    → Rising lo hi rs
    → lower_bound rs k ≡ some (first_not_below rs k)
unfolding lower_bound
lower_bound-Rising lo hi rs k w =
    rw ((==_iff (length rs) _).1 (sym (count_values-Rising lo hi rs w))) refl

remove-without_key :
    (lo hi : ℕ) (rs : Records) (k : Double)
    → is_nan k ≡ false
    → Rising lo hi rs
    → is_none (find_record rs k) ≡ false
    → remove zero rs k ≡ some (true, without_key rs k)
remove-without_key lo hi rs k number w there =
    let (x, u, at, same, e) = erased lo hi rs k number w there in
    unfold remove page_lower_bound in rw (lower_bound-Rising lo hi rs k w, at, same, e) refl

-- A page with as many records as fit takes no new one.
insert_in_node_full :
    (lo hi : ℕ) (rs : Records) (k : Double) (v : ℕ)
    → is_nan k ≡ false
    → Rising lo hi rs
    → is_none (find_record rs k) ≡ true
    → length rs ≡ cardinality
    → insert_in_node rs k v ≡ none
unfolding insert_in_node
insert_in_node_full lo hi rs k v number w new full =
    rw (lower_bound-Rising lo hi rs k w, inserted_at_lem lo hi rs k v number w, new, full) refl

abbrev pub two_leaves : Double → Records → Double → Records → BtreePlus
two_leaves s xs s' ys = record { height = 1; root = (s, xs) ∷ (s', ys) ∷ [] }

merged :
    (s s' : Double) (xs ys : Records)
    → length xs ≡ 6
    → length ys ≡ 7
    → coalesce_or_redistribute zero ((s, xs) ∷ (s', ys) ∷ []) 0 ≡ some (true, (s, xs ++ ys) ∷ [])
unfolding coalesce_or_redistribute coalesce erase_pair
merged s s' xs ys six seven =
    let small : leb 7 (length xs) ≡ false = ground (arith, six) in
    let few : leb 14 (length xs + length ys) ≡ false = ground (arith, six, seven) in
    rw (small, few) refl

first_child :
    (s s' k : Double) (xs ys : Records)
    → double_lt k s' ≡ true
    → child_rank ((s, xs) ∷ (s', ys) ∷ []) k ≡ 0
unfolding child_rank first_above
first_child s s' k xs ys left = rw left refl

deleted :
    (s s' k : Double) (xs rest ys : Records)
    → double_lt k s' ≡ true
    → remove zero xs k ≡ some (true, rest)
    → length rest ≡ 6
    → length ys ≡ 7
    → delete_from 1 ((s, xs) ∷ (s', ys) ∷ []) k
      ≡ some (record { found = true; lost = true; node = (s, rest ++ ys) ∷ [] })
unfolding delete_from
deleted s s' k xs rest ys left removed six seven =
    let place = first_child s s' k xs ys left in
    rw (place, delete_from) (rw removed (rw (place, merged s s' rest ys six seven) refl))

-- In a tree of two leaves with seven records each, the deletion of a record of the first leaf merges the
-- leaves into one with as many records as a page can hold, the old ones without it; and then the upsert
-- of any key that is not there fails at an assertion. The keys are no NaN.
pub upsert-delete_entry :
    (s s' k j : Double) (xs ys : Records) (v : ℕ)
    → IsBtree (two_leaves s xs s' ys)
    → length xs ≡ 7
    → length ys ≡ 7
    → is_nan k ≡ false
    → is_nan j ≡ false
    → double_lt k s' ≡ true
    → is_none (find_record xs k) ≡ false
    → is_none (find_record (without_key xs k ++ ys) j) ≡ true
    → (t' : BtreePlus) × (delete_entry (two_leaves s xs s' ys) k ≡ some (true, t'))
      × (get_data t' ≡ without_key (get_data (two_leaves s xs s' ys)) k)
      × (upsert t' j v ≡ none)
unfolding delete_entry adjust_root
upsert-delete_entry s s' k j xs ys v w seven seven' number other left there new =
    let rest = without_key xs k in
    let six : length rest ≡ 6 = omega (arith, length-without_key xs k there, seven) in
    let rising =
      Rising-append 0 (rank s') (2 ^ 64) rest ys (without_key-Rising 0 (rank s') xs k w.0.2.0)
        w.0.3.0 in
    let thirteen : length (rest ++ ys) ≡ 13 = omega (arith, length-append rest ys, six, seven') in
    let removed = remove-without_key 0 (rank s') xs k number w.0.2.0 there in
    (
      record { height = 0; root = rest ++ ys },
      rw (deleted s s' k xs rest ys left removed six seven', delete_entry) refl,
      unfold get_data page_data in rw (append-nil ys) (sym (without_key-append xs ys k there)),
      unfold upsert upsert_page in
          rw (insert_in_node_full 0 (2 ^ 64) (rest ++ ys) j v other rising new thirteen) refl,
    )

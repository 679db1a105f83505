-- ===== src/Btree.antt =====
-- `btree_plus` and `page` of src/core/index/b_plus.h, the B+ tree of the buffers and the overflow blocks. A
-- page is the list of its `record_num` records; what lies behind them is not read as long as its values are
-- null, which `count` tests. The pointer to a parent is the page from which the recursion comes, and
-- the links between leaves are the order of the leaves in the tree. `none` is an exit of the process.
pub mod Lookup
pub mod Append
pub mod Bounded
pub mod Sorted
pub mod Split
pub mod Parent
pub mod Upsert
pub mod Deletion
pub mod Merged
mod Tests
mod MergedTests
use plin_cloud_edge_device_l.Common.{
  ℕ, zero, suc, ◌+◌, ◌-◌, ◌/◌, Bool, true, false, not, ◌&&◌, List, [], ◌∷◌, ◌++◌, Option, none,
  some, ltb, ◌==◌, if◌then◌else◌, length, get_elem?, set, take, drop, ◌>>=◌,
}
use plin_cloud_edge_device_l.Double.{Double, double_le, double_lt, double_eq}
use plin_cloud_edge_device_l.PlinIndex.{free_flag}

-- (BTREE_PLUS_PAGESIZE - sizeof(header)) / sizeof(Record), with 256, 48 and 16 bytes.
abbrev pub cardinality : ℕ
cardinality = 13

-- The value of a record: a payload in a leaf, a page in a page of the given height.
abbrev pub Value : ℕ → Type 0
Value zero = ℕ
Value (suc n) = List (Double × Value n)

abbrev pub Page : ℕ → Type 0
Page n = List (Double × Value n)

abbrev pub Records : Type 0
Records = List (Double × ℕ)

pub record BtreePlus : Type 0 where
  pub height : ℕ
  pub root : Page height

-- The constructor with `init`: an empty leaf.
unfoldable pub new_btree_plus : BtreePlus
new_btree_plus = record { height = 0; root = [] }

-- The values that are not null; a payload of 0 is a null pointer.
unfoldable pub count_values : Records → ℕ
count_values [] = 0
count_values ((k, v) ∷ rs) = let rest = count_values rs in if v == 0 then rest else suc rest

unfoldable pub first_not_below : {A : Type 0} → List (Double × A) → Double → ℕ
first_not_below [] target_key = 0
first_not_below ((k, v) ∷ rs) target_key =
    let rest = first_not_below rs target_key in if double_le target_key k then 0 else suc rest

-- Of a leaf; the number of records must be that of the values.
unfoldable pub lower_bound : Records → Double → Option ℕ
lower_bound rs target_key =
    if length rs == count_values rs then some (first_not_below rs target_key) else none

unfoldable pub first_above : {A : Type 0} → List (Double × A) → Double → ℕ
first_above [] target_key = 0
first_above ((k, c) ∷ rs) target_key =
    let rest = first_above rs target_key in if double_lt target_key k then 0 else suc rest

-- `upper_bound(target_key) - 1`, where the loop starts behind the first record.
unfoldable pub child_rank : {A : Type 0} → List (Double × A) → Double → ℕ
child_rank rs target_key = first_above (drop 1 rs) target_key

-- What is at the place of a key.
abbrev pub looked_up : Option (Double × ℕ) → Double → Option ℕ
looked_up none target_key = none
looked_up (some (k, v)) target_key = if double_eq k target_key then some v else none

unfoldable pub leaf_lookup : Records → Double → Option (Option ℕ)
leaf_lookup rs target_key = do
  id ← lower_bound rs target_key
  some (looked_up (get_elem? rs id) target_key)

unfoldable pub find_leaf_page : (n : ℕ) → Page n → Double → Option Records
find_leaf_page zero rs key = some rs
find_leaf_page (suc n) rs key = elim (get_elem? rs (child_rank rs key)) [
  | none ↦ none
  | some (k, c) ↦ find_leaf_page n c key
]

unfoldable pub find : BtreePlus → Double → Option (Option ℕ)
find t key = do leaf ← find_leaf_page t.height t.root key; leaf_lookup leaf key

-- The records from `id` on move up by one.
unfoldable pub insert_pair : {A : Type 0} → List A → ℕ → A → List A
insert_pair rs id r = take id rs ++ (r ∷ drop id rs)

-- `records[0].key`; a page without records is as the constructor leaves it.
unfoldable pub first_key : {A : Type 0} → List (Double × A) → Double
first_key [] = free_flag
first_key ((k, c) ∷ rs) = k

-- Whether there is a new record, and the records, from what is at the place.
abbrev pub inserted_at : Records → ℕ → Option (Double × ℕ) → Double → ℕ → Bool × Records
inserted_at rs id none key payload = (true, insert_pair rs id (key, payload))
inserted_at rs id (some (k, v)) key payload =
    if double_eq k key
    then (false, set rs id (k, payload))
    else (true, insert_pair rs id (key, payload))

-- The number of records is asserted before a new one goes in.
unfoldable pub insert_in_node : Records → Double → ℕ → Option (Bool × Records)
insert_in_node rs key payload = do
  id ← lower_bound rs key
  let (there, rs') = inserted_at rs id (get_elem? rs id) key payload in
      if there && not (ltb (length rs) cardinality) then none else some (there, rs')

-- What an insertion makes of a page: the page, and its new sibling with the key of its first record.
pub record Grown (n : ℕ) : Type 0 where
  pub ret : ℕ
  pub node : Page n
  pub sibling : Option (Double × Page n)

-- `split`, if the page is full.
unfoldable pub split_if_full : (n : ℕ) → ℕ → Page n → Grown n
split_if_full n ret rs =
    let right = length rs / 2 in
    let left = length rs - right in
    if ltb (length rs) cardinality
    then record { ret = ret; node = rs; sibling = none }
    else record {
      ret = ret;
      node = take left rs;
      sibling = some (first_key (drop left rs), drop left rs);
    }

-- `insert_into_parent`, with the new sibling of the child at `child_idx`.
unfoldable pub insert_into_parent :
    (n : ℕ) → Page (suc n) → ℕ → Double → Grown n → Option (Grown (suc n))
insert_into_parent n rs child_idx s g =
    let father = set rs child_idx (s, g.node) in
    elim g.sibling [
      | none ↦ some (record { ret = g.ret; node = father; sibling = none })
      | some (k, new_node) ↦
          if ltb (length father) cardinality
          then some (split_if_full (suc n) g.ret (insert_pair father (suc child_idx) (k, new_node)))
          else none
    ]

unfoldable pub upsert_page : (n : ℕ) → Page n → Double → ℕ → Option (Grown n)
upsert_page zero rs key payload = do
  (there, rs') ← insert_in_node rs key payload
  if there
      then some (split_if_full zero 4 rs')
      else some (record { ret = 3; node = rs'; sibling = none })
upsert_page (suc n) rs key payload = elim (get_elem? rs (child_rank rs key)) [
  | none ↦ none
  | some (s, c) ↦
      let below = upsert_page n c key payload in
      elim below [ none ↦ none | some g ↦ insert_into_parent n rs (child_rank rs key) s g ]
]

-- A new root above the old one and its sibling; the first key is that of the old root's first record.
unfoldable pub new_root : (n : ℕ) → Grown n → BtreePlus
new_root n g = elim g.sibling [
  | none ↦ record { height = n; root = g.node }
  | some (k, new_node) ↦ record {
    height = suc n;
    root = (first_key g.node, g.node) ∷ (k, new_node) ∷ [];
  }
]

-- 3 for an update, 4 for an insertion; `insert` is the same function.
unfoldable pub upsert : BtreePlus → Double → ℕ → Option (ℕ × BtreePlus)
upsert t key payload = do
  g ← upsert_page t.height t.root key payload
  some (g.ret, new_root t.height g)

abbrev pub all_data : {A : Type 0} → (A → Records) → List (Double × A) → Records
all_data f [] = []
all_data f ((k, c) ∷ rs) = f c ++ all_data f rs

-- The records of the leaves, from the leftmost on.
unfoldable pub page_data : (n : ℕ) → Page n → Records
page_data zero rs = rs
page_data (suc n) rs = all_data (page_data n) rs

unfoldable pub get_data : BtreePlus → Records
get_data t = page_data t.height t.root

-- The records from the leaf for a key on.
unfoldable pub data_from : (n : ℕ) → Page n → Double → Records
data_from zero rs key = rs
data_from (suc n) rs key = elim (get_elem? rs (child_rank rs key)) [
  | none ↦ []
  | some (k, c) ↦ data_from n c key ++ all_data (page_data n) (drop (suc (child_rank rs key)) rs)
]

unfoldable pub answers : Records → Double → Double → Records
answers [] lower_bound upper_bound = []
answers ((k, v) ∷ rs) lower_bound upper_bound =
    let rest = answers rs lower_bound upper_bound in
    if double_le lower_bound k && (double_le k upper_bound && not (v == 0))
    then (k, v) ∷ rest
    else rest

unfoldable pub range_query : BtreePlus → Double → Double → Records
range_query t lower_bound upper_bound =
    answers (data_from t.height t.root lower_bound) lower_bound upper_bound

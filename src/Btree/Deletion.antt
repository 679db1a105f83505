-- ===== src/Btree/Deletion.antt =====
-- `btree_plus::delete_entry` of src/core/index/b_plus.h. A page that has become too small takes a record of
-- a neighbour or is merged with it; `none` is undefined behaviour or an exit of the process.
use plin_cloud_edge_device_l.Common.{
  ℕ, zero, suc, ◌+◌, ◌-◌, Bool, true, false, List, [], ◌∷◌, ◌++◌, Option, none, some, leb,
  if◌then◌else◌, length, get_elem?, set, take, drop, ◌>>=◌,
}
use plin_cloud_edge_device_l.Double.{Double, double_eq}
use plin_cloud_edge_device_l.Btree.{
  Page, BtreePlus, first_not_below, lower_bound, first_key, child_rank,
}

unfoldable pub erase_pair : {A : Type 0} → List A → ℕ → List A
erase_pair rs idx = take idx rs ++ drop (suc idx) rs

-- `lower_bound` of any page; the children of an inner page are never null.
unfoldable pub page_lower_bound : (n : ℕ) → Page n → Double → Option ℕ
page_lower_bound zero rs key = lower_bound rs key
page_lower_bound (suc n) rs key = some (first_not_below rs key)

abbrev pub removed_at :
    {A : Type 0}
    → List (Double × A)
    → ℕ
    → Double
    → Option (Double × A)
    → Option (Bool × List (Double × A))
removed_at rs idx key none = some (false, rs)
removed_at rs idx key (some (k, c)) =
    if double_eq k key then some (true, erase_pair rs idx) else none

-- Whether there is one record less, and the records; the function has no return where another key is at the
-- place.
unfoldable pub remove : (n : ℕ) → Page n → Double → Option (Bool × Page n)
remove n rs key = do idx ← page_lower_bound n rs key; removed_at rs idx key (get_elem? rs idx)

-- The first record of the right neighbour moves to the end of the first page; or the last one of the
-- left neighbour to the front of the page.
unfoldable pub redistribute :
    (n : ℕ) → Page (suc n) → ℕ → Double × Page n → Double × Page n → Option (Page (suc n))
redistribute n parent zero (k, node) (kn, neighbor_node) = do
  (rise_key, payload) ← get_elem? neighbor_node 0
  (there, rest) ← remove n neighbor_node rise_key
  some (set (set parent 0 (k, node ++ ((rise_key, payload) ∷ []))) 1 (first_key rest, rest))
redistribute n parent (suc i) (k, node) (kn, neighbor_node) = do
  (rise_key, payload) ← get_elem? neighbor_node (length neighbor_node - 1)
  (there, rest) ← remove n neighbor_node rise_key
  some (set (set parent i (kn, rest)) (suc i) (rise_key, (rise_key, payload) ∷ node))

-- The right one of the two pages goes into the left one.
unfoldable pub coalesce :
    (n : ℕ) → Page (suc n) → ℕ → Double × Page n → Double × Page n → Page (suc n)
coalesce n parent zero (k, node) (kn, neighbor_node) =
    erase_pair (set parent 0 (k, node ++ neighbor_node)) 1
coalesce n parent (suc i) (k, node) (kn, neighbor_node) =
    erase_pair (set parent i (kn, neighbor_node ++ node)) (suc i)

-- The place of the neighbour: the right one for the first page, else the left one.
abbrev pub neighbor_of : ℕ → ℕ
neighbor_of zero = 1
neighbor_of (suc i) = i

-- Of the page at a place; whether its parent has lost a record, and the parent.
unfoldable pub coalesce_or_redistribute : (n : ℕ) → Page (suc n) → ℕ → Option (Bool × Page (suc n))
coalesce_or_redistribute n father index = do
  (k, node) ← get_elem? father index
  if leb 7 (length node) then some (false, father) else do
    (kn, neighbor) ← get_elem? father (neighbor_of index)
    if leb 14 (length node + length neighbor)
        then (do
          father' ← redistribute n father index (k, node) (kn, neighbor)
          some (false, father'))
        else some (true, coalesce n father index (k, node) (kn, neighbor))

-- What a deletion leaves of a page: whether there was a record with the key, whether the page has lost a
-- record of its own, and the page.
pub record Shrunk (n : ℕ) : Type 0 where
  pub found : Bool
  pub lost : Bool
  pub node : Page n

abbrev pub repaired : (n : ℕ) → ℕ → Double → Page (suc n) → Shrunk n → Option (Shrunk (suc n))
repaired n idx s rs g =
    let father = set rs idx (s, g.node) in
    if g.lost
    then (do
      (merged, father') ← coalesce_or_redistribute n father idx
      some (record { found = g.found; lost = merged; node = father' }))
    else some (record { found = g.found; lost = false; node = father })

unfoldable pub delete_from : (n : ℕ) → Page n → Double → Option (Shrunk n)
delete_from zero rs key = do
  (there, rs') ← remove zero rs key
  some (record { found = there; lost = there; node = rs' })
delete_from (suc n) rs key = elim (get_elem? rs (child_rank rs key)) [
  | none ↦ none
  | some (s, c) ↦
      let below = delete_from n c key in
      elim below [ none ↦ none | some g ↦ repaired n (child_rank rs key) s rs g ]
]

-- The only child of a root becomes the root.
unfoldable pub adjust_root : (n : ℕ) → Page n → BtreePlus
adjust_root zero rs = record { height = 0; root = rs }
adjust_root (suc n) ((k, c) ∷ []) = record { height = n; root = c }
adjust_root (suc n) rs = record { height = suc n; root = rs }

unfoldable pub delete_entry : BtreePlus → Double → Option (Bool × BtreePlus)
delete_entry t key = do
  g ← delete_from t.height t.root key
  some (
    g.found,
    if g.lost then adjust_root t.height g.node else record { height = t.height; root = g.node },
  )

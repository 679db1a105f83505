-- ===== src/PlinIndex/Leaf.antt =====
-- src/core/index/leaf_node.h: blocks of slots that a model chooses, each with a B+ tree for what does not
-- fit. A list of leaves stands for the chain of their `next` pointers, from a leaf on. The global version
-- never changes, so that `check_global_version` does nothing; flushes to memory are left out.
use plin_cloud_edge_device_l.Common.{
  ℕ, ◌+◌, ◌-◌, ◌%◌, ◌^◌, ◌≡◌, ◌⊎◌, Bool, true, false, List, [], ◌∷◌, Option, none, some, leb, ◌==◌,
  if◌then◌else◌,
}
use plin_cloud_edge_device_l.Common.Int.{pos, pos_part, ltb_ℤ}
use plin_cloud_edge_device_l.Double.{Double, is_nan, double_eq}
use plin_cloud_edge_device_l.Plin.Predict.{Arith}
use plin_cloud_edge_device_l.PlinIndex.{free_flag}

-- What a leaf asks of `btree_plus` (src/core/index/b_plus.h): the trees with their pages in order and none
-- of them full, in which every search returns. The program's own trees fill it in PlinIndex/Btrees.
pub record OverflowTree : Type 1 where
  pub Tree : Type 0
  pub empty : Tree
  pub find : Tree → Double → Option ℕ
  -- 3 for an update, 4 for an insertion; `insert` is the same function. `none` where no such tree is left:
  -- a payload of 0 is a null pointer, which ends the process at the next search of its page, and a NaN is
  -- out of order.
  pub upsert : Tree → Double → ℕ → Option (ℕ × Tree)
  -- `none` for undefined behaviour, where `page::remove` ends without a return, and where a merge leaves a
  -- full page.
  pub delete_entry : Tree → Double → Option (Bool × Tree)
  pub find-empty : (k : Double) → find empty k ≡ none
  pub find-upsert :
      (t : Tree) (k : Double) (v : ℕ)
      → is_nan k ≡ false
      → (v == 0) ≡ false
      → (ret : ℕ) × (t' : Tree) × (upsert t k v ≡ some (ret, t'))
        × ((ret ≡ 3) ⊎ (ret ≡ 4))
        × ((j : Double) → find t' j ≡ (if double_eq k j then some v else find t j))

pub record DataSlot : Type 0 where
  pub key : Double
  pub payload : ℕ

-- The first slot with the key.
unfoldable pub find_slot : Double → List DataSlot → Option ℕ
find_slot key [] = none
find_slot key (s ∷ slots) = if double_eq key s.key then some s.payload else find_slot key slots

-- The first slot with the key gets the payload; `none` where there is no such slot.
unfoldable pub update_slot : Double → ℕ → List DataSlot → Option (List DataSlot)
update_slot key payload [] = none
update_slot key payload (s ∷ slots) =
    let rest : Option (List DataSlot) = elim (update_slot key payload slots) [
      | none ↦ none
      | some ss ↦ some (s ∷ ss)
    ] in
    if double_eq s.key key then some (record s { payload = payload } ∷ slots) else rest

-- The first free slot gets the key and the payload.
unfoldable pub insert_slot : Double → ℕ → List DataSlot → Option (List DataSlot)
insert_slot key payload [] = none
insert_slot key payload (s ∷ slots) =
    let rest : Option (List DataSlot) = elim (insert_slot key payload slots) [
      | none ↦ none
      | some ss ↦ some (s ∷ ss)
    ] in
    if double_eq s.key free_flag
    then some (record { key = key; payload = payload } ∷ slots)
    else rest

-- The first slot with the key is given free: `FREE_FLAG` and `DELETE_FLAG` are one number.
unfoldable pub remove_slot : Double → List DataSlot → Option (List DataSlot)
remove_slot key [] = none
remove_slot key (s ∷ slots) =
    let rest : Option (List DataSlot) = elim (remove_slot key slots) [
      | none ↦ none
      | some ss ↦ some (s ∷ ss)
    ] in
    if double_eq s.key key then some (record s { key = free_flag } ∷ slots) else rest

-- `predict_block`; `block_number - 3` and `block_number - 1` are subtractions of 32 bits.
unfoldable pub leaf_predict_block : Arith → Double → Double → Double → ℕ → ℕ
leaf_predict_block a key slope intercept block_number =
    let predicted_block = a.leaf_block_at key slope intercept in
    if ltb_ℤ predicted_block (pos 0)
    then 0
    else if ltb_ℤ (pos ((block_number + 2 ^ 32 - 3) % 2 ^ 32)) predicted_block
    then (block_number + 2 ^ 32 - 1) % 2 ^ 32
    else (pos_part predicted_block + 1) % 2 ^ 32

-- `BlockHeader` and the 15 slots of its block. `locked` has a lock bit above a version of 31 bits.
pub record Block (o : OverflowTree) : Type 0 where
  pub locked : ℕ
  pub overflow_tree : Option o.Tree
  pub slots : List DataSlot

pub record Leaf (o : OverflowTree) : Type 0 where
  pub slope : Double
  pub intercept : Double
  pub block_number : ℕ
  pub first_key : Double
  pub overflow_number : ℕ
  pub number_to_split : ℕ
  pub locked : ℕ
  pub abandoned : Bool
  pub blocks : List (Block o)

module _ (o : OverflowTree) where
  abbrev pub is_locked : Block o → Bool
  is_locked b = leb (2 ^ 31) b.locked

  -- `release_lock` counts the version up; `release_lock_without_change` does not.
  abbrev pub release_lock : Block o → Block o
  release_lock b = record b { locked = (b.locked + 1) % 2 ^ 31 }

  abbrev pub release_lock_without_change : Block o → Block o
  release_lock_without_change b = record b { locked = b.locked % 2 ^ 31 }

  -- `new btree_plus(&overflow_tree, !overflow_tree)`.
  abbrev pub tree_of : Option o.Tree → o.Tree
  tree_of none = o.empty
  tree_of (some t) = t

  abbrev pub find_overflow : Option o.Tree → Double → Option ℕ
  find_overflow none key = none
  find_overflow (some t) key = o.find t key

  -- The slots first, then the overflow.
  unfoldable pub block_find : Block o → Double → Option ℕ
  block_find b key = elim (find_slot key b.slots) [
    | some v ↦ some v
    | none ↦ find_overflow b.overflow_tree key
  ]

  unfoldable pub overflow_upsert : Double → ℕ → Block o → Option (ℕ × Block o)
  overflow_upsert key payload b = elim (o.upsert (tree_of b.overflow_tree) key payload) [
    | none ↦ none
    | some (flag, t) ↦ some (flag, record b { overflow_tree = some t })
  ]

  -- 1 for an update in a slot, 2 for an insertion in a free slot. A deleted slot is a free one, so that
  -- none is left to be used again behind the search of the tree.
  unfoldable pub block_upsert : Double → ℕ → Block o → Option (ℕ × Block o)
  block_upsert key payload b = elim (update_slot key payload b.slots) [
    | some slots ↦ some (1, record b { slots = slots })
    | none ↦ elim (insert_slot key payload b.slots) [
      | some slots ↦ some (2, record b { slots = slots })
      | none ↦ overflow_upsert key payload b
    ]
  ]

  -- `delete_entry` of the tree, if there is one: 2 where it had the key, else 0.
  unfoldable pub overflow_remove : Option o.Tree → Double → Block o → Option (ℕ × Block o)
  overflow_remove none key b = some (0, release_lock_without_change b)
  overflow_remove (some t) key b = elim (o.delete_entry t key) [
    | none ↦ none
    | some (true, t') ↦ some (2, release_lock (record b { overflow_tree = some t' }))
    | some (false, t') ↦
        some (0, release_lock_without_change (record b { overflow_tree = some t' }))
  ]

  -- 1 for a slot, 2 for the overflow, 0 where the key is not there.
  unfoldable pub block_remove : Double → Block o → Option (ℕ × Block o)
  block_remove key b = elim (remove_slot key b.slots) [
    | some slots ↦ some (1, release_lock (record b { slots = slots }))
    | none ↦ overflow_remove b.overflow_tree key b
  ]

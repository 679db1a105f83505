-- ===== src/PlinIndex/Inserted.antt =====
-- `upsert_node` of src/core/index/inner_node.h, on nodes in a list and roots (src/core/index/plin_index.h).
use plin_cloud_edge_device_l.Common.{
  ℕ, zero, suc, ◌+◌, ◌-◌, true, false, List, Option, none, some, leb, ◌==◌, if◌then◌else◌, length,
  get_elem?, set, ◌>>=◌,
}
use plin_cloud_edge_device_l.Double.{Double, double_eq, double_le}
use plin_cloud_edge_device_l.Plin.Predict.{Arith}
use plin_cloud_edge_device_l.PlinIndex.Slot
use plin_cloud_edge_device_l.PlinIndex.Slot.{InnerSlot}
use plin_cloud_edge_device_l.PlinIndex.Inner.{
  is_free, search_left, start_slot, search, InnerTree, Place, root_at, slot_at, slot_in,
}

-- `while (inner_slots[++target_slot].min_key <= node.min_key) {}`, for as many rounds as there are slots.
unfoldable pub target_behind : ℕ → List InnerSlot → Double → ℕ → Option ℕ
target_behind zero slots key target = none
target_behind (suc rounds) slots key target =
    let further = target_behind rounds slots key (suc target) in
    elim (get_elem? slots (suc target)) [
      | none ↦ none
      | some s ↦ if double_le s.min_key key then further else some (suc target)
    ]

-- `for (++slot; slot > target_slot; --slot) inner_slots[slot] = inner_slots[slot - 1]`, for `slot -
-- target_slot` rounds.
unfoldable pub move_right : ℕ → List InnerSlot → ℕ → Option (List InnerSlot)
move_right zero slots slot = some slots
move_right (suc rounds) slots slot = elim (get_elem? slots (slot - 1)) [
  | none ↦ none
  | some s ↦ move_right rounds (set slots slot s) (slot - 1)
]

-- The slots with a new one in the block of the predicted slot, whose last slot is free; `slot` is where the search
-- came to.
unfoldable pub insert_in_block : List InnerSlot → ℕ → ℕ → InnerSlot → Option (List InnerSlot)
insert_in_block slots predicted slot node = do
  target ←
      (if leb predicted slot
        then target_behind (length slots) slots node.min_key predicted
        else some predicted)
  used ← search_left slots (predicted + 7)
  moved ← move_right (suc used - target) slots (suc used)
  some (set moved target node)

-- 1 for an update of the slot with the key, 2 for an insertion, 3 where the block is full.
unfoldable pub upsert_slot :
    Arith → List InnerSlot → InnerSlot → InnerSlot → ℕ → Option (ℕ × List InnerSlot)
upsert_slot a slots accelerator node slot = do
  s ← get_elem? slots slot
  if double_eq s.min_key node.min_key then some (1, set slots slot node) else do
    let predicted = start_slot a accelerator node.min_key
    end ← get_elem? slots (predicted + 7)
    if is_free end
        then (do slots' ← insert_in_block slots predicted slot node; some (2, slots'))
        else some (3, slots)

abbrev pub set_slots : InnerTree → ℕ → List InnerSlot → InnerTree
set_slots t i slots = elim (get_elem? t.nodes i) [
  | none ↦ t
  | some n ↦ record t { nodes = set t.nodes i (record n { slots = slots }) }
]

abbrev pub set_slot : InnerTree → Place → InnerSlot → InnerTree
set_slot t (root_at i) s = record t { roots = set t.roots i s }
set_slot t (slot_at i j) s = elim (get_elem? t.nodes i) [
  | none ↦ t
  | some n ↦ set_slots t i (set n.slots j s)
]

-- The change is made under the lock of the accelerator.
unfoldable pub upsert_locked :
    Arith → InnerTree → Place → ℕ → InnerSlot → ℕ → Option (ℕ × InnerTree)
upsert_locked a t place i node slot = do
  accelerator ← slot_in t place
  n ← get_elem? t.nodes i
  (ret, slots) ← upsert_slot a n.slots accelerator node slot
  if ret == 3 then some (3, t) else do
    locked ← Slot.get_lock accelerator
    some (ret, set_slot (set_slots t i slots) place (Slot.release_lock locked))

-- Down from the node `i`, whose accelerator stands at the place.
unfoldable pub upsert_node : Arith → ℕ → InnerTree → ℕ → InnerSlot → Place → Option (ℕ × InnerTree)
upsert_node a zero t i node place = none
upsert_node a (suc fuel) t i node place = do
  accelerator ← slot_in t place
  n ← get_elem? t.nodes i
  slot ← search a n.slots accelerator node.min_key
  s ← get_elem? n.slots slot
  elim (Slot.is_inner s) [
    | true ↦ upsert_node a fuel t s.ptr node (slot_at i slot)
    | false ↦ upsert_locked a t place i node slot
  ]

-- ===== src/PlinIndex/Inner.antt =====
-- src/core/index/inner_node.h: nodes of slots that point to leaves or to nodes of the level below. The
-- nodes stand in a list, and a pointer to a node is its place there; `none` is undefined behaviour, an
-- access out of bounds, a failed assertion, a wait for a lock, or a path longer than the fuel.
use plin_cloud_edge_device_l.Common.{
  ℕ, zero, suc, ◌+◌, ◌-◌, ◌*◌, ◌%◌, ◌^◌, Bool, true, false, not, ◌&&◌, ◌||◌, List, [], ◌∷◌, Option,
  none, some, if◌then◌else◌, length, get_elem?, set, replicate, ◌>>=◌,
}
use plin_cloud_edge_device_l.Double.{Double, double_eq, double_le, double_lt}
use plin_cloud_edge_device_l.Plin.Predict.{Arith, predict_block}
use plin_cloud_edge_device_l.PlinIndex.{free_flag}
use plin_cloud_edge_device_l.PlinIndex.Slot
use plin_cloud_edge_device_l.PlinIndex.Slot.{InnerSlot}
use plin_cloud_edge_device_l.PlinIndex.Model.{Line, inner_line}

pub record InnerNode : Type 0 where
  pub slope : Double
  pub intercept : Double
  pub block_number : ℕ
  pub record_number : ℕ
  pub first_key : Double
  pub level : ℕ
  pub slots : List InnerSlot

abbrev pub is_free : InnerSlot → Bool
is_free s = double_eq s.min_key free_flag

-- `while (inner_slots[--slot].min_key == FREE_FLAG) {}`.
unfoldable pub search_left : List InnerSlot → ℕ → Option ℕ
search_left slots zero = none
search_left slots (suc slot) =
    let further = search_left slots slot in
    elim (get_elem? slots slot) [ none ↦ none | some s ↦ if is_free s then further else some slot ]

abbrev pub before : ℕ → Option ℕ
before zero = none
before (suc slot) = some slot

-- The loop to the right, for as many rounds as there are slots up to the end; then `--slot`.
unfoldable pub search_right : ℕ → List InnerSlot → Double → ℕ → Option ℕ
search_right zero slots key slot = before slot
search_right (suc rounds) slots key slot =
    let further = search_right rounds slots key (suc slot) in
    elim (get_elem? slots slot) [
      | none ↦ none
      | some s ↦ if not (is_free s) && double_le s.min_key key then further else before slot
    ]

-- `predict_block` of the node is that of the cached model; then the first slot of the block.
abbrev pub start_slot : Arith → InnerSlot → Double → ℕ
start_slot a accelerator key =
    predict_block a key accelerator.slope accelerator.intercept (Slot.block_number accelerator) * 8

-- The slot that `find_leaf_node` and `upsert_node` come to in one node.
unfoldable pub search : Arith → List InnerSlot → InnerSlot → Double → Option ℕ
search a slots accelerator key =
    let slot = start_slot a accelerator key in
    let slot_number = Slot.block_number accelerator * 8 % 2 ^ 32 in
    elim (get_elem? slots slot) [
      | none ↦ none
      | some s ↦
          if is_free s || double_lt key s.min_key
          then search_left slots slot
          else search_right (slot_number - slot) slots key slot
    ]

-- A loop over the slots from one on, at most so many, to the first free one.
unfoldable pub first_free : ℕ → List InnerSlot → ℕ → Option ℕ
first_free zero slots slot = none
first_free (suc rounds) slots slot =
    let further = first_free rounds slots (suc slot) in
    elim (get_elem? slots slot) [ none ↦ none | some s ↦ if is_free s then some slot else further ]

-- The eight slots from one on, and then all the slots behind them.
unfoldable pub free_place : ℕ → List InnerSlot → ℕ → Option ℕ
free_place block_number slots slot = elim (first_free 8 slots slot) [
  | some target ↦ some target
  | none ↦ first_free (block_number * 8 - (slot + 8)) slots (slot + 8)
]

unfoldable pub data_placement : Arith → InnerNode → Double → InnerSlot → Option InnerNode
data_placement a n key node =
    elim (free_place n.block_number n.slots
      (predict_block a key n.slope n.intercept n.block_number * 8)) [
        | none ↦ none
        | some target ↦ some (record n { slots = set n.slots target node })
      ]

unfoldable pub place_all : Arith → InnerNode → List (Double × InnerSlot) → Option InnerNode
place_all a n [] = some n
place_all a n ((key, node) ∷ rows) = elim (data_placement a n key node) [
  | none ↦ none
  | some n' ↦ place_all a n' rows
]

abbrev pub last_key : Double → List (Double × InnerSlot) → Double
last_key key [] = key
last_key key ((k, s) ∷ rows) = last_key k rows

-- The new array holds `garbage` but for the keys.
abbrev pub empty_node : InnerSlot → Line → ℕ → ℕ → Double → ℕ → InnerNode
empty_node garbage line block_number number first_key level = record {
  slope = line.slope;
  intercept = line.intercept;
  block_number = block_number % 2 ^ 32;
  record_number = number;
  first_key = first_key;
  level = level;
  slots = replicate (8 * (block_number % 2 ^ 32)) (record garbage { min_key = free_flag });
}

-- "Build accelerator", for a node that will stand at `ptr`.
abbrev pub build_accelerator : InnerSlot → Line → ℕ → Double → ℕ → InnerSlot
build_accelerator accelerator line block_number first_key ptr =
    Slot.describe (block_number % 2 ^ 32) true (record accelerator {
      min_key = first_key;
      ptr = ptr;
      slope = line.slope;
      intercept = line.intercept;
    })

-- The constructor, on the rows from `start_pos` on.
unfoldable pub new_inner :
    Arith
    → InnerSlot
    → InnerSlot
    → ℕ
    → ℕ
    → List (Double × InnerSlot)
    → ℕ
    → Line
    → ℕ
    → Option (InnerNode × InnerSlot)
new_inner a accelerator garbage ptr block_number [] start_pos line level = none
new_inner a accelerator garbage ptr block_number ((first_key, node) ∷ rows) start_pos line level =
    let corrected = inner_line a line block_number start_pos first_key (last_key first_key rows) in
    let empty = empty_node garbage corrected block_number (suc (length rows)) first_key level in
    elim (place_all a empty ((first_key, node) ∷ rows)) [
      | none ↦ none
      | some n ↦ some (n, build_accelerator accelerator corrected block_number first_key ptr)
    ]

-- The inner nodes and the slots of the root (`plin_metadata` of src/core/index/plin_index.h).
pub record InnerTree : Type 0 where
  pub roots : List InnerSlot
  pub nodes : List InnerNode

-- Where an accelerator stands: a root, or a slot of a node.
pub data Place : Type 0 where
  root_at : ℕ → Place
  slot_at : ℕ → ℕ → Place

abbrev pub slot_in : InnerTree → Place → Option InnerSlot
slot_in t (root_at i) = get_elem? t.roots i
slot_in t (slot_at i j) = elim (get_elem? t.nodes i) [ none ↦ none | some n ↦ get_elem? n.slots j ]

-- The leaf's accelerator, through nodes of as many levels as there is fuel.
unfoldable pub find_leaf_node : Arith → ℕ → List InnerNode → ℕ → Double → InnerSlot → Option Place
find_leaf_node a zero nodes i key accelerator = none
find_leaf_node a (suc fuel) nodes i key accelerator = do
  n ← get_elem? nodes i
  slot ← search a n.slots accelerator key
  s ← get_elem? n.slots slot
  elim (Slot.is_inner s) [
    | true ↦ find_leaf_node a fuel nodes s.ptr key s
    | false ↦ some (slot_at i slot)
  ]

-- `while (inner_slots[slot].min_key == FREE_FLAG) { ++slot; }` from the first slot.
unfoldable pub leftmost : List InnerSlot → Option InnerSlot
leftmost [] = none
leftmost (s ∷ slots) = if is_free s then leftmost slots else some s

unfoldable pub get_leftmost_leaf : ℕ → List InnerNode → ℕ → Option ℕ
get_leftmost_leaf zero nodes i = none
get_leftmost_leaf (suc fuel) nodes i = do
  n ← get_elem? nodes i
  s ← leftmost n.slots
  elim (Slot.is_inner s) [ true ↦ get_leftmost_leaf fuel nodes s.ptr | false ↦ some s.ptr ]

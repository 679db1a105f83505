-- ===== src/PlinIndex/Index.antt =====
-- `PlinIndex` of src/core/index/plin_index.h: the two buffers, the roots and inner nodes, and the leaves
-- in the order of their chain, where a pointer to a leaf is its place. `none` is undefined behaviour, or
-- a loop that waits for another thread.
use plin_cloud_edge_device_l.Common.{
  ℕ, zero, suc, ◌+◌, ◌-◌, ◌%◌, ◌^◌, Bool, true, false, ◌&&◌, ◌||◌, List, [], ◌∷◌, ◌++◌, Option,
  none, some, ltb, ◌==◌, if◌then◌else◌, get_elem?, take, drop, ◌>>=◌,
}
use plin_cloud_edge_device_l.Common.Int.{ℤ, pos_part}
use plin_cloud_edge_device_l.Double.{Double, double_le, double_lt}
use plin_cloud_edge_device_l.Plin.Predict.{Arith}
use plin_cloud_edge_device_l.PlinIndex.Slot
use plin_cloud_edge_device_l.PlinIndex.Slot.{InnerSlot}
use plin_cloud_edge_device_l.PlinIndex.Leaf.{OverflowTree, Leaf}
use plin_cloud_edge_device_l.PlinIndex.Chain
use plin_cloud_edge_device_l.PlinIndex.Chain.{Changed}
use plin_cloud_edge_device_l.PlinIndex.Inner.{InnerTree, Place, root_at, slot_in, find_leaf_node}
use plin_cloud_edge_device_l.PlinIndex.Inserted

pub record LearnedIndex (o : OverflowTree) : Type 0 where
  pub min_key : Double
  pub max_key : Double
  pub left_buffer : o.Tree
  pub right_buffer : o.Tree
  pub leaf_number : ℕ
  pub orphan_number : ℕ
  pub left_buffer_number : ℕ
  pub right_buffer_number : ℕ
  pub level : ℕ
  pub rebuilding : Bool
  pub tree : InnerTree
  pub leaves : List (Leaf o)
  pub is_training : Bool
  -- `meta_table.local_table`: the addresses of the leaves, sorted by key.
  pub local_table : List (Double × ℕ)

-- `while (i < root_number && key >= roots[i].min_key) ++i`.
unfoldable pub roots_below : Double → List InnerSlot → ℕ
roots_below key [] = 0
roots_below key (s ∷ roots) =
    let more = roots_below key roots in if double_le s.min_key key then suc more else 0

-- The root for a key; for a key below all the roots, `--i` wraps around.
unfoldable pub get_parent : Double → InnerTree → Option Place
get_parent key t = elim (roots_below key t.roots) [ zero ↦ none | suc i ↦ some (root_at i) ]

-- The accelerator that an operation starts with.
unfoldable pub choose : Arith → ℕ → InnerTree → Double → Option Place
choose a level t key = do
  place ← get_parent key t
  accelerator ← slot_in t place
  if Slot.is_inner accelerator
      then find_leaf_node a level t.nodes accelerator.ptr key accelerator
      else some place

module _ (a : Arith) (o : OverflowTree) where
  abbrev pub accelerator_for : LearnedIndex o → Double → Option InnerSlot
  accelerator_for ix key = do place ← choose a ix.level ix.tree key; slot_in ix.tree place

  abbrev pub inside : LearnedIndex o → Double → Bool
  inside ix key = double_le ix.min_key key && double_le key ix.max_key

  abbrev pub found_or : ℕ → Option ℕ → Bool × ℕ
  found_or payload none = (false, payload)
  found_or payload (some v) = (true, v)

  -- `btree_plus::find`, which leaves the payload as it is where it does not find the key.
  unfoldable pub find_in_buffer : o.Tree → Double → ℕ → Bool × ℕ
  find_in_buffer buffer key payload = found_or payload (o.find buffer key)

  -- `find_in_buffer_net`.
  unfoldable pub find_in_buffer_net : LearnedIndex o → Double → ℕ → Bool × ℕ
  find_in_buffer_net ix key payload =
      if double_lt key ix.min_key
      then find_in_buffer ix.left_buffer key payload
      else find_in_buffer ix.right_buffer key payload

  -- What the leaves leaf_answer: 2 would go on for ever.
  abbrev pub leaf_answer : Option (ℕ × ℕ) → Option (Bool × ℕ)
  leaf_answer none = none
  leaf_answer (some (ret, payload)) =
      if ret == 1 then some (true, payload) else if ret == 0 then some (false, payload) else none

  unfoldable pub find_at : LearnedIndex o → Double → ℕ → InnerSlot → Option (Bool × ℕ)
  find_at ix key payload accelerator =
      if Slot.check_read_lock accelerator
      then leaf_answer
          (Chain.find a o (drop accelerator.ptr ix.leaves) key payload (some accelerator))
      else none

  unfoldable pub find_inside : LearnedIndex o → Double → ℕ → Option (Bool × ℕ)
  find_inside ix key payload = elim (accelerator_for ix key) [
    | none ↦ none
    | some accelerator ↦ find_at ix key payload accelerator
  ]

  unfoldable pub find : LearnedIndex o → Double → ℕ → Option (Bool × ℕ)
  find ix key payload =
      if inside ix key then find_inside ix key payload else some (find_in_buffer_net ix key payload)

  -- The leaf that the caller names, from 0 to the last one; the comparison with `leaf_number - 1` is one of 32 bits
  -- without a sign.
  unfoldable pub clamp : ℤ → ℕ → ℕ
  clamp logic_id leaf_number =
      let id = pos_part logic_id in
      let last = (leaf_number + 2 ^ 32 - 1) % 2 ^ 32 in if ltb last id then last else id

  -- The loop waits until the leaf may be read.
  unfoldable pub find_from : List (Leaf o) → Double → ℕ → Option (ℕ × ℕ)
  find_from [] key payload = none
  find_from (leaf ∷ next) key payload =
      if Chain.may_read a o none leaf then Chain.find a o (leaf ∷ next) key payload none else none

  -- `find` first, whose payload stays where the leaf that the caller names does not have the key.
  unfoldable pub find_through_net : LearnedIndex o → Double → ℕ → ℤ → Option (ℕ × ℕ)
  find_through_net ix key payload logic_id = do
    (there, p) ← find ix key payload
    if ix.is_training then none else do
      (k, leaf) ← get_elem? ix.local_table (clamp logic_id ix.leaf_number)
      if inside ix key then find_from (drop leaf ix.leaves) key p else some (0, p)

  -- `left_buffer_number` and `right_buffer_number` count the keys that are new.
  unfoldable pub upsert_buffer : LearnedIndex o → Double → ℕ → Option (LearnedIndex o)
  upsert_buffer ix key payload =
      if double_lt key ix.min_key
      then (do
        (ret, t) ← o.upsert ix.left_buffer key payload
        let n = if ret == 4 then (ix.left_buffer_number + 1) % 2 ^ 32 else ix.left_buffer_number
        some (record ix { left_buffer = t; left_buffer_number = n }))
      else (do
        (ret, t) ← o.upsert ix.right_buffer key payload
        let n = if ret == 4 then (ix.right_buffer_number + 1) % 2 ^ 32 else ix.right_buffer_number
        some (record ix { right_buffer = t; right_buffer_number = n }))

  abbrev pub strictly_inside : LearnedIndex o → Double → Bool
  strictly_inside ix key = double_lt ix.min_key key && double_lt key ix.max_key

  abbrev pub with_leaves : LearnedIndex o → ℕ → List (Leaf o) → LearnedIndex o
  with_leaves ix ptr leaves = record ix { leaves = take ptr ix.leaves ++ leaves }

  -- The result and the leaf that a thread is started for, to split it: with the accelerator at 5, and
  -- without one at 6.
  unfoldable pub upsert_at :
      LearnedIndex o → Double → ℕ → InnerSlot → Option (ℕ × Option ℕ × LearnedIndex o)
  upsert_at ix key payload accelerator = do
    leaf ← get_elem? ix.leaves accelerator.ptr
    if leaf.locked % 2 == 1 || ix.rebuilding then none else do
      c ← Chain.upsert a o (drop accelerator.ptr ix.leaves) key payload (some accelerator)
      if c.ret == 7
          then none
          else some (c.ret, c.leaf_to_split, with_leaves ix accelerator.ptr c.leaves)

  unfoldable pub upsert_inside :
      LearnedIndex o → Double → ℕ → Option (ℕ × Option ℕ × LearnedIndex o)
  upsert_inside ix key payload = elim (accelerator_for ix key) [
    | none ↦ none
    | some accelerator ↦ upsert_at ix key payload accelerator
  ]

  -- 0 for a buffer.
  unfoldable pub upsert : LearnedIndex o → Double → ℕ → Option (ℕ × Option ℕ × LearnedIndex o)
  upsert ix key payload =
      if strictly_inside ix key
      then upsert_inside ix key payload
      else (do ix' ← upsert_buffer ix key payload; some (0, none, ix'))

  unfoldable pub remove_inside : LearnedIndex o → Double → Option (LearnedIndex o)
  remove_inside ix key = do
    accelerator ← accelerator_for ix key
    c ← Chain.remove a o (drop accelerator.ptr ix.leaves) key (some accelerator)
    if c.ret == 3 then none else some (with_leaves ix accelerator.ptr c.leaves)

  unfoldable pub remove_buffer : LearnedIndex o → Double → Option (LearnedIndex o)
  remove_buffer ix key =
      if double_lt key ix.min_key
      then (do
        (there, t) ← o.delete_entry ix.left_buffer key
        let n =
            if there then (ix.left_buffer_number + 2 ^ 32 - 1) % 2 ^ 32 else ix.left_buffer_number
        some (record ix { left_buffer = t; left_buffer_number = n }))
      else (do
        (there, t) ← o.delete_entry ix.right_buffer key
        let n =
            if there then (ix.right_buffer_number + 2 ^ 32 - 1) % 2 ^ 32 else ix.right_buffer_number
        some (record ix { right_buffer = t; right_buffer_number = n }))

  unfoldable pub remove : LearnedIndex o → Double → Option (LearnedIndex o)
  remove ix key = if strictly_inside ix key then remove_inside ix key else remove_buffer ix key

  -- A new leaf's slot goes into an inner node; a leaf for which there is no place is an orphan.
  unfoldable pub upsert_node : LearnedIndex o → InnerSlot → Option (ℕ × LearnedIndex o)
  upsert_node ix node = do
    place ← get_parent node.min_key ix.tree
    root ← slot_in ix.tree place
    (ret, t) ← Inserted.upsert_node a ix.level ix.tree root.ptr node place
    some (
      ret,
      record ix {
        tree = t;
        leaf_number = if ltb 1 ret then (ix.leaf_number + 1) % 2 ^ 32 else ix.leaf_number;
        orphan_number = if ltb 2 ret then (ix.orphan_number + 1) % 2 ^ 32 else ix.orphan_number;
      },
    )

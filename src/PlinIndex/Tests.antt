-- ===== src/PlinIndex/Tests.antt =====
-- Small blocks and leaves with the program's own trees behind them, and the theorems on them.
use plin_cloud_edge_device_l.Common.{
  ℕ, ◌≤◌, ◌≡◌, refl, inl, inr, true, false, List, [], ◌∷◌, none, some, arith, if◌then◌else◌,
}
use plin_cloud_edge_device_l.Double.{Double, is_nan, rank, double_eq, double_le, double_lt}
use plin_cloud_edge_device_l.Plin.Tests.{small}
use plin_cloud_edge_device_l.PlinIndex.{free_flag}
use plin_cloud_edge_device_l.PlinIndex.Slot
use plin_cloud_edge_device_l.PlinIndex.Slot.{InnerSlot, describe_lem}
use plin_cloud_edge_device_l.PlinIndex.Leaf.{
  DataSlot, find_slot, Block, Leaf, block_find, block_upsert, block_remove, remove_slot,
  update_slot, insert_slot, leaf_predict_block,
}
use plin_cloud_edge_device_l.Btree
use plin_cloud_edge_device_l.Btree.{BtreePlus}
use plin_cloud_edge_device_l.Btree.Sorted.{IsBtree}
use plin_cloud_edge_device_l.PlinIndex.Btrees.{btrees, empty}
use plin_cloud_edge_device_l.PlinIndex.Chain
use plin_cloud_edge_device_l.PlinIndex.Chain.{Changed}
use plin_cloud_edge_device_l.PlinIndex.Index
use plin_cloud_edge_device_l.PlinIndex.Index.{LearnedIndex}
use plin_cloud_edge_device_l.PlinIndex.FindUpsert.{find-upsert}
use plin_cloud_edge_device_l.PlinIndex.Ends.{find-upsert_lem, find-upsert_end}
use plin_cloud_edge_device_l.PlinIndex.Block.{block_find-block_upsert}
use plin_cloud_edge_device_l.PlinIndex.Stale.{IsBlock, block_find-block_remove, block_find_stale}

abbrev a_slot : InnerSlot
a_slot = record { min_key = 20; ptr = 0; slope = 1; intercept = 0; info = 7 }

describe_lem_example :
    let d = Slot.describe 5 true a_slot in
    let l = Slot.get_read_lock (Slot.get_write_lock d) in
    ((Slot.block_number d ≡ 5)
      × (Slot.is_inner d ≡ true)
      × (Slot.check_write_lock d ≡ true)
      × (Slot.check_read_lock d ≡ true))
    × ((Slot.block_number l ≡ 5)
        × (Slot.is_inner l ≡ true)
        × (Slot.check_write_lock l ≡ false)
        × (Slot.check_read_lock l ≡ false))
    × (Slot.release_lock l ≡ d)
describe_lem_example = describe_lem 5 true a_slot (omega arith)

abbrev pub slots_of : Double → ℕ → Double → List DataSlot
slots_of k v j = record { key = k; payload = v } ∷ record { key = j; payload = 8 } ∷ []

-- A tree of one record.
abbrev one_record : BtreePlus
one_record = record { height = 0; root = (20, 9) ∷ [] }

one_record-IsBtree : IsBtree one_record
unfolding is_nan rank
one_record-IsBtree = ((refl, omega arith, refl, omega arith), omega arith)

-- A full block with a key in the tree.
abbrev full : Block btrees
full = record {
  locked = 0;
  overflow_tree = some (one_record, one_record-IsBtree);
  slots = slots_of 10 7 12;
}

abbrev open_block : Block btrees
open_block = record { locked = 0; overflow_tree = none; slots = slots_of 10 7 free_flag }

block_find-block_upsert_example :
    (flag : ℕ) × (b' : Block btrees) × (block_upsert btrees 30 5 full ≡ some (flag, b'))
    × (flag ≤ 4)
    × ((j : Double)
        → double_eq j free_flag ≡ false
        → block_find btrees b' j ≡ (if double_eq 30 j then some 5 else block_find btrees full j))
block_find-block_upsert_example =
    block_find-block_upsert btrees 30 5 full (unfold is_nan in refl) refl

open_block-IsBlock : IsBlock btrees open_block
unfolding double_eq is_nan rank
open_block-IsBlock = record { slots = (inr (refl, tt), (inl refl, tt)); apart = λ k v f e. refl }

block_find-block_remove_example :
    (b' : Block btrees) × (block_remove btrees 10 open_block ≡ some (1, b'))
    × (block_find btrees b' 12
        ≡ (if double_eq 10 12 then none else block_find btrees open_block 12))
block_find-block_remove_example =
    block_find-block_remove btrees 10 12 7 open_block open_block-IsBlock
      (unfold double_eq is_nan rank in refl) (unfold double_eq is_nan rank in refl)
      (unfold find_slot double_eq is_nan rank in refl)

block_find_stale_example :
    (b1 b'' : Block btrees) × (block_upsert btrees 20 5
        (record full { locked = 1; slots = slots_of free_flag 7 12 })
      ≡ some (2, b1))
    × (block_remove btrees 20 b1 ≡ some (1, b''))
    × (block_find btrees b'' 20 ≡ some 9)
block_find_stale_example =
    block_find_stale btrees 10 20 9 5 full
      (record full { locked = 1; slots = slots_of free_flag 7 12 }) (unfold is_nan in refl)
      (unfold double_eq is_nan rank in refl) (unfold find_slot double_eq is_nan rank in refl)
      (unfold Btree.find Btree.find_leaf_page Btree.leaf_lookup Btree.lower_bound Btree.count_values
          Btree.first_not_below double_eq double_le is_nan rank in
        refl)
      (unfold block_remove remove_slot double_eq is_nan rank in refl)

-- Two leaves of three blocks, from the keys 0 and 320 on.
abbrev pub leaf_at : Double → List (Block btrees) → Leaf btrees
leaf_at first blocks = record {
  slope = 1;
  intercept = 0;
  block_number = 3;
  first_key = first;
  overflow_number = 0;
  number_to_split = 13;
  locked = 0;
  abandoned = false;
  blocks = blocks;
}

abbrev pub vacant : Block btrees
vacant = record { locked = 0; overflow_tree = none; slots = slots_of free_flag 0 free_flag }

abbrev taken : Block btrees
taken = record { locked = 1; overflow_tree = none; slots = slots_of 10 4 free_flag }

abbrev pub second_leaf : Leaf btrees
second_leaf = leaf_at 320 (vacant ∷ vacant ∷ vacant ∷ [])

abbrev pub leaves : List (Leaf btrees)
leaves = leaf_at 0 (vacant ∷ vacant ∷ vacant ∷ []) ∷ second_leaf ∷ []

abbrev leaves_after : List (Leaf btrees)
leaves_after = leaf_at 0 (vacant ∷ taken ∷ vacant ∷ []) ∷ second_leaf ∷ []

abbrev changed : Changed btrees
changed = record { ret = 2; leaf_to_split = none; leaves = leaves_after }

abbrev pub root_slot : InnerSlot
root_slot = record { min_key = 0; ptr = 0; slope = 1; intercept = 0; info = 3 }

upserted : Chain.upsert small btrees leaves 10 4 (some root_slot) ≡ some changed
unfolding Chain.upsert Chain.behind Chain.may_read Chain.passes_on Chain.block_count
    Chain.chosen_block Chain.upsert_here Chain.may_write Chain.counted leaf_predict_block
    block_upsert update_slot insert_slot Slot.check_read_lock Slot.check_write_lock
    Slot.block_number double_eq double_le is_nan rank
upserted = refl

find-upsert_example : Chain.find small btrees leaves_after 10 0 (some root_slot) ≡ (
    if double_eq 10 10 then some (1, 4) else Chain.find small btrees leaves 10 0 (some root_slot))
find-upsert_example =
    find-upsert small btrees leaves 10 10 4 0 (some root_slot) changed (unfold is_nan in refl) refl
      (unfold double_eq is_nan rank in refl) (inl refl) upserted refl

abbrev pub index_of : List (Leaf btrees) → LearnedIndex btrees
index_of ls = record {
  min_key = 0;
  max_key = 400;
  left_buffer = empty;
  right_buffer = empty;
  leaf_number = 2;
  orphan_number = 0;
  left_buffer_number = 0;
  right_buffer_number = 0;
  level = 1;
  rebuilding = false;
  tree = record { roots = root_slot ∷ []; nodes = [] };
  leaves = ls;
  is_training = false;
  local_table = (0, 0) ∷ (320, 1) ∷ [];
}

index_upserted :
    Index.upsert small btrees (index_of leaves) 10 4 ≡ some (2, none, index_of leaves_after)
unfolding Index.upsert Index.upsert_inside Index.upsert_at Index.choose Index.get_parent
    Index.roots_below Chain.upsert Chain.behind Chain.may_read Chain.passes_on Chain.block_count
    Chain.chosen_block Chain.upsert_here Chain.may_write Chain.counted leaf_predict_block
    block_upsert update_slot insert_slot Slot.check_read_lock Slot.check_write_lock
    Slot.block_number Slot.is_inner double_eq double_le double_lt is_nan rank
index_upserted = refl

find-upsert_lem_example :
    Index.find small btrees (index_of leaves_after) 10 0
    ≡ (if double_eq 10 10 then some (true, 4) else Index.find small btrees (index_of leaves) 10 0)
find-upsert_lem_example =
    find-upsert_lem small btrees (index_of leaves) (index_of leaves_after) 10 10 4 0 2 none
      (unfold is_nan in refl) refl (unfold double_eq is_nan rank in refl) (inl refl)
      (unfold double_eq is_nan rank in refl) (unfold double_eq is_nan rank in refl) index_upserted

find-upsert_end_example :
    (ix' : LearnedIndex btrees) × (Index.upsert small btrees (index_of leaves) 400 6
      ≡ some (0, none, ix'))
    × (Index.find small btrees ix' 400 0 ≡ Index.find small btrees (index_of leaves) 400 0)
find-upsert_end_example =
    find-upsert_end small btrees (index_of leaves) 400 6 0 refl
      (unfold double_eq is_nan rank in refl) (unfold double_le is_nan rank in refl)

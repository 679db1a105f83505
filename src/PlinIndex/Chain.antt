-- ===== src/PlinIndex/Chain.antt =====
-- The operations of `LeafNode` (src/core/index/leaf_node.h) on a leaf and those behind it.
use plin_cloud_edge_device_l.Common.{
  ℕ, suc, ◌+◌, ◌-◌, ◌/◌, ◌%◌, ◌^◌, Bool, false, not, ◌&&◌, List, [], ◌∷◌, Option, none, some, ltb,
  leb, ◌==◌, if◌then◌else◌, get_elem?, set,
}
use plin_cloud_edge_device_l.Double.{Double, double_le}
use plin_cloud_edge_device_l.Plin.Predict.{Arith}
use plin_cloud_edge_device_l.PlinIndex.Slot
use plin_cloud_edge_device_l.PlinIndex.Slot.{InnerSlot}
use plin_cloud_edge_device_l.PlinIndex.Leaf.{
  OverflowTree, leaf_predict_block, Block, Leaf, is_locked, release_lock,
  release_lock_without_change, block_find, block_upsert, block_remove,
}

module _ (a : Arith) (o : OverflowTree) where
  -- The model of the accelerator, or that of the leaf itself where there is none.
  unfoldable pub chosen_block : Option InnerSlot → Leaf o → Double → ℕ
  chosen_block none l key = leaf_predict_block a key l.slope l.intercept l.block_number
  chosen_block (some s) l key = leaf_predict_block a key s.slope s.intercept (Slot.block_number s)

  unfoldable pub block_count : Option InnerSlot → Leaf o → ℕ
  block_count none l = l.block_number
  block_count (some s) l = Slot.block_number s

  -- `block >= block_number - 2 && leaf_node.next && get_next()->get_min_key() <= key`.
  unfoldable pub passes_on : Option InnerSlot → Leaf o → List (Leaf o) → Double → Bool
  passes_on accelerator l [] key = false
  passes_on accelerator l (n ∷ next) key =
      leb ((block_count accelerator l + 2 ^ 32 - 2) % 2 ^ 32) (chosen_block accelerator l key)
      && double_le n.first_key key

  unfoldable pub may_read : Option InnerSlot → Leaf o → Bool
  may_read none l = l.locked / 4 % 2 == 0
  may_read (some s) l = Slot.check_read_lock s

  unfoldable pub may_write : Option InnerSlot → Leaf o → Bool
  may_write none l = l.locked / 2 % 2 == 0
  may_write (some s) l = Slot.check_write_lock s

  unfoldable pub found_payload : ℕ → Option ℕ → ℕ × ℕ
  found_payload payload none = (0, payload)
  found_payload payload (some v) = (1, v)

  -- The result and the caller's payload: 1 found, 0 not. The wait for the lock of the block is `none`.
  unfoldable pub find_here : Leaf o → ℕ → Double → ℕ → Option (ℕ × ℕ)
  find_here l block key payload = elim (get_elem? l.blocks block) [
    | none ↦ none
    | some b ↦ if is_locked o b then none else some (found_payload payload (block_find o b key))
  ]

  -- 2 is a retry.
  unfoldable pub find : List (Leaf o) → Double → ℕ → Option InnerSlot → Option (ℕ × ℕ)
  find [] key payload accelerator = none
  find (l ∷ next) key payload accelerator =
      let rest = find next key payload none in
      if not (may_read accelerator l)
      then some (2, payload)
      else if passes_on accelerator l next key
      then rest
      else find_here l (chosen_block accelerator l key) key payload

-- What a change leaves: the result, the leaf to split (how many leaves behind the first one), and the
-- leaves.
pub record Changed (o : OverflowTree) : Type 0 where
  pub ret : ℕ
  pub leaf_to_split : Option ℕ
  pub leaves : List (Leaf o)

module _ (a : Arith) (o : OverflowTree) where
  abbrev with_block : Leaf o → ℕ → Block o → Leaf o
  with_block l block b = record l { blocks = set l.blocks block b }

  -- The same one leaf further back.
  unfoldable pub behind : Leaf o → Option (Changed o) → Option (Changed o)
  behind l none = none
  behind l (some c) = some (record {
    ret = c.ret;
    leaf_to_split = elim c.leaf_to_split [ none ↦ none | some i ↦ some (suc i) ];
    leaves = l ∷ c.leaves;
  })

  -- After the write: 5 and 6 ask for a split, of a leaf with an accelerator and of an orphan; and 7, a
  -- retry, if the leaf has been abandoned.
  unfoldable pub counted : Option InnerSlot → ℕ → Leaf o → ℕ × Option ℕ × Leaf o
  counted accelerator flag l =
      let l' =
        (if flag == 4
          then record l { overflow_number = (l.overflow_number + 1) % 2 ^ 64 }
          else l) in
      let full = flag == 4 && ltb l'.number_to_split l'.overflow_number in
      let orphan : ℕ = elim accelerator [ none ↦ 6 | some s ↦ 5 ] in
      (if l.abandoned then 7 else if full then orphan else flag, if full then some 0 else none, l')

  unfoldable pub upsert_here :
      Option InnerSlot → Leaf o → List (Leaf o) → ℕ → Double → ℕ → Option (Changed o)
  upsert_here accelerator l next block key payload = elim (get_elem? l.blocks block) [
    | none ↦ none
    | some b ↦
        if not (may_write a o accelerator l)
        then some (record {
          ret = 7;
          leaf_to_split = none;
          leaves = with_block l block (release_lock_without_change o b) ∷ next;
        })
        else if is_locked o b
        then none
        else elim (block_upsert o key payload b) [
          | none ↦ none
          | some (flag, b') ↦
              let (ret, split, l') =
                counted accelerator flag (with_block l block (release_lock o b')) in
              some (record { ret = ret; leaf_to_split = split; leaves = l' ∷ next })
        ]
  ]

  unfoldable pub upsert : List (Leaf o) → Double → ℕ → Option InnerSlot → Option (Changed o)
  upsert [] key payload accelerator = none
  upsert (l ∷ next) key payload accelerator =
      let rest = behind l (upsert next key payload none) in
      if not (may_read a o accelerator l)
      then some (record { ret = 7; leaf_to_split = none; leaves = l ∷ next })
      else if passes_on a o accelerator l next key
      then rest
      else upsert_here accelerator l next (chosen_block a o accelerator l key) key payload

  -- `--leaf_node.overflow_number` where the tree had the key.
  unfoldable pub uncounted : ℕ → Leaf o → Leaf o
  uncounted ret l =
      if ret == 2
      then record l { overflow_number = (l.overflow_number + 2 ^ 64 - 1) % 2 ^ 64 }
      else l

  unfoldable pub remove_here :
      Option InnerSlot → Leaf o → List (Leaf o) → ℕ → Double → Option (Changed o)
  remove_here accelerator l next block key = elim (get_elem? l.blocks block) [
    | none ↦ none
    | some b ↦
        if not (may_write a o accelerator l)
        then some (record {
          ret = 3;
          leaf_to_split = none;
          leaves = with_block l block (release_lock_without_change o b) ∷ next;
        })
        else if is_locked o b
        then none
        else elim (block_remove o key b) [
          | none ↦ none
          | some (ret, b') ↦ some (record {
            ret = ret;
            leaf_to_split = none;
            leaves = uncounted ret (with_block l block b') ∷ next;
          })
        ]
  ]

  -- 3 is a retry.
  unfoldable pub remove : List (Leaf o) → Double → Option InnerSlot → Option (Changed o)
  remove [] key accelerator = none
  remove (l ∷ next) key accelerator =
      let rest = behind l (remove next key none) in
      if not (may_read a o accelerator l)
      then some (record { ret = 3; leaf_to_split = none; leaves = l ∷ next })
      else if passes_on a o accelerator l next key
      then rest
      else remove_here accelerator l next (chosen_block a o accelerator l key) key

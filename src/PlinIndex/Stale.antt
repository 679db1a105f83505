-- ===== src/PlinIndex/Stale.antt =====
-- `LeafNode::remove` of src/core/index/leaf_node.h on the block that it chooses, and what a removal gives
-- free: since `DELETE_FLAG` is `FREE_FLAG`, the next upsert fills the slot before it searches the tree.
use plin_cloud_edge_device_l.Common.{
  ℕ, ◌≡◌, refl, sym, ◌∙◌, inl, inr, false, List, Option, none, some, arith, if◌then◌else◌,
  Bool-cases, Option-cases,
}
use plin_cloud_edge_device_l.Double.{Double, is_nan, double_eq}
use plin_cloud_edge_device_l.PlinIndex.{free_flag}
use plin_cloud_edge_device_l.PlinIndex.Leaf.{
  OverflowTree, DataSlot, find_slot, insert_slot, update_slot, remove_slot, Block, find_overflow,
  block_find, block_upsert, overflow_remove, block_remove, release_lock,
}
use plin_cloud_edge_device_l.PlinIndex.Block.{block_find_lem, find_slot_congr}
use plin_cloud_edge_device_l.PlinIndex.Removal.{
  IsDistinct, Fresh-find_slot, find_slot-Fresh, remove_slot-Fresh, find_slot-remove_slot,
  remove_slot-none, remove_slot-insert_slot, insert_slot-remove_slot, update_slot-Fresh,
  remove_slot-some, Fresh-remove_slot,
}

module _ (o : OverflowTree) where
  -- No key is in two places of the block.
  pub record IsBlock (b : Block o) : Type 0 where
    pub slots : IsDistinct b.slots
    pub apart :
        (k : Double) (v : ℕ)
        → double_eq k free_flag ≡ false
        → find_slot k b.slots ≡ some v
        → find_overflow o b.overflow_tree k ≡ none

  block_remove-slot :
      (k : Double) (b : Block o) (ss : List DataSlot)
      → remove_slot k b.slots ≡ some ss
      → block_remove o k b ≡ some (1, release_lock o (record b { slots = ss }))
  unfolding block_remove
  block_remove-slot k b ss e = rw (e, block_remove) refl

  block_remove-overflow :
      (k : Double) (b : Block o)
      → remove_slot k b.slots ≡ none
      → block_remove o k b ≡ overflow_remove o b.overflow_tree k b
  unfolding block_remove
  block_remove-overflow k b e = rw (e, block_remove) refl

  removed_slot :
      (k j : Double) (b : Block o) (ss : List DataSlot)
      → IsBlock b
      → double_eq k free_flag ≡ false
      → double_eq j free_flag ≡ false
      → remove_slot k b.slots ≡ some ss
      → block_find o (release_lock o (record b { slots = ss })) j
        ≡ (if double_eq k j then none else block_find o b j)
  removed_slot k j b ss w f g e = elim (Bool-cases (double_eq k j)) [
    | inr t ↦
        block_find_lem o (release_lock o (record b { slots = ss })) j
        ∙ rw (t, find_slot-remove_slot k j b.slots ss g t e) (sym (block_find_lem o b j))
    | inl t ↦
        let (v, there) = remove_slot-some k b.slots ss e in
        let gone =
          sym (find_slot_congr k j ss t)
          ∙ Fresh-find_slot k ss (remove_slot-Fresh k b.slots ss f w.slots e) in
        block_find_lem o (release_lock o (record b { slots = ss })) j
        ∙ rw (t, gone) (w.apart j v g (sym (find_slot_congr k j b.slots t) ∙ there))
  ]

  -- A removal of a key that a slot has takes it out of a block with no key in two places, and leaves every
  -- other key as it was; the key of a free slot is neither of the two.
  pub block_find-block_remove :
      (k j : Double) (v : ℕ) (b : Block o)
      → IsBlock b
      → double_eq k free_flag ≡ false
      → double_eq j free_flag ≡ false
      → find_slot k b.slots ≡ some v
      → (b' : Block o) × (block_remove o k b ≡ some (1, b'))
        × (block_find o b' j ≡ (if double_eq k j then none else block_find o b j))
  block_find-block_remove k j v b w f g h = elim (Option-cases (remove_slot k b.slots)) [
    | inr (ss, e) ↦ (
      release_lock o (record b { slots = ss }),
      block_remove-slot k b ss e,
      removed_slot k j b ss w f g e,
    )
    | inl e ↦ cc (sym (remove_slot-none k b.slots e) ∙ h)
  ]

  overflow_remove_ne_one :
      (t : Option o.Tree) (k : Double) (b b' : Block o) → overflow_remove o t k b ≡ some (1, b') → ⊥
  unfolding overflow_remove
  overflow_remove_ne_one none k b b' h = cc
  overflow_remove_ne_one (some t) k b b' h = ground arith

  freed :
      (d : Double) (b b' : Block o)
      → block_remove o d b ≡ some (1, b')
      → (ss : List DataSlot) × (remove_slot d b.slots ≡ some ss)
        × (b' ≡ release_lock o (record b { slots = ss }))
  freed d b b' h = elim (Option-cases (remove_slot d b.slots)) [
    | inr (ss, e) ↦ (ss, e, cc (block_remove-slot d b ss e, h))
    | inl e ↦
        absurd
          (overflow_remove_ne_one b.overflow_tree d b b' (sym (block_remove-overflow d b e) ∙ h))
  ]

  block_upsert-free :
      (k : Double) (v : ℕ) (b : Block o) (ss : List DataSlot)
      → update_slot k v b.slots ≡ none
      → insert_slot k v b.slots ≡ some ss
      → block_upsert o k v b ≡ some (2, record b { slots = ss })
  unfolding block_upsert
  block_upsert-free k v b ss u i = rw (u, block_upsert) (rw (i, block_upsert) refl)

  -- A key that is no NaN and not that of a free slot can come back with an old payload. Where a block has it
  -- in its tree and in no slot, and some key is removed from a slot, an upsert of the key is removed from a
  -- slot again, and a search then finds the payload of before in the tree.
  pub block_find_stale :
      (d k : Double) (old new : ℕ) (b b' : Block o)
      → is_nan k ≡ false
      → double_eq k free_flag ≡ false
      → find_slot k b.slots ≡ none
      → find_overflow o b.overflow_tree k ≡ some old
      → block_remove o d b ≡ some (1, b')
      → (b1 b'' : Block o) × (block_upsert o k new b' ≡ some (2, b1))
        × (block_remove o k b1 ≡ some (1, b''))
        × (block_find o b'' k ≡ some old)
  block_find_stale d k old new b b' number used absent there gone =
      let (ss, r, e) = freed d b b' gone in
      let free = Fresh-remove_slot d k b.slots ss used (find_slot-Fresh k b.slots absent) r in
      let (filled, i) = remove_slot-insert_slot d k new b.slots ss r in
      let (rest, r', free') = insert_slot-remove_slot k new ss filled number used free i in
      let b1 = release_lock o (record b { slots = ss }) in
      let b2 = record b1 { slots = filled } in
      let b3 = release_lock o (record b2 { slots = rest }) in
      (
        b2,
        b3,
        rw e (block_upsert-free k new b1 filled (update_slot-Fresh k new ss free) i),
        block_remove-slot k b2 rest r',
        block_find_lem o b3 k ∙ rw (Fresh-find_slot k rest free') there,
      )

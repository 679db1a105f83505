-- ===== src/PlinIndex/MadeLeaf.antt =====
-- A leaf that the constructor of `LeafNode` (src/core/index/leaf_node.h) makes has the rows it was made of.
use plin_cloud_edge_device_l.Common.{
  ℕ, ◌+◌, ◌%◌, ◌^◌, ◌<◌, ◌≤◌, ◌≡◌, refl, ◌∙◌, inl, inr, Bool, true, false, List, [], ◌∷◌, none,
  some, arith, ◌==◌, if◌then◌else◌, Option-cases, get_elem?, set, length, length-set,
  length-replicate, get_elem?-of_lt,
}
use plin_cloud_edge_device_l.Double.{Double, is_nan, double_eq}
use plin_cloud_edge_device_l.Plin.Predict.{Arith}
use plin_cloud_edge_device_l.PlinIndex.{free_flag}
use plin_cloud_edge_device_l.PlinIndex.Leaf.{
  OverflowTree, insert_slot, Block, Leaf, leaf_predict_block, overflow_upsert, tree_of,
}
use plin_cloud_edge_device_l.PlinIndex.Model.{Line, leaf_line}
use plin_cloud_edge_device_l.PlinIndex.NewLeaf.{
  block_placement, data_placement, place_rows, own_block, last_row_key, empty_block, empty_leaf,
  new_leaf, leaf_find, IsLeafRows, row_used, leaf_find_kept, leaf_find_placed, empty_find,
}

module _ (a : Arith) (o : OverflowTree) where
  -- The blocks that the choice of a block counts on are there.
  HasBlocks : Leaf o → Type 0
  HasBlocks l =
      (3 ≤ l.block_number) × (l.block_number < 2 ^ 28) × (length l.blocks ≡ l.block_number)

  own_block-lt : (l : Leaf o) (k : Double) → HasBlocks l → own_block a o l k < length l.blocks
  unfolding HasBlocks leaf_predict_block
  own_block-lt l k (three, small, same) = ground (arith, three, small, same)

  block_placement_returns :
      (k : Double) (v : ℕ) (b : Block o)
      → is_nan k ≡ false
      → (v == 0) ≡ false
      → (flag : Bool) × (b' : Block o) × (block_placement a o k v b ≡ some (flag, b'))
  unfolding block_placement overflow_upsert
  block_placement_returns k v b number payload = elim (Option-cases (insert_slot k v b.slots)) [
    | inr (ss, e) ↦ (false, record b { slots = ss }, rw (e, block_placement) refl)
    | inl e ↦
        let (ret, t, u, which, law) =
          o.find-upsert (tree_of o b.overflow_tree) k v number payload in
        (
          true,
          record b { overflow_tree = some t },
          rw (e, block_placement) (rw (u, overflow_upsert) refl),
        )
  ]

  data_placement_returns :
      (l : Leaf o) (k : Double) (v : ℕ)
      → is_nan k ≡ false
      → (v == 0) ≡ false
      → HasBlocks l
      → (l' : Leaf o) × (data_placement a o l k v ≡ some l') × HasBlocks l'
  unfolding data_placement HasBlocks
  data_placement_returns l k v number payload w =
      let (b, e) = get_elem?-of_lt l.blocks (own_block a o l k) (own_block-lt l k w) in
      let (flag, b', placed) = block_placement_returns k v b number payload in
      let (three, small, same) = w in
      (
        record l {
          blocks = set l.blocks (own_block a o l k) b';
          overflow_number = if flag then (l.overflow_number + 1) % 2 ^ 64 else l.overflow_number;
        },
        rw (e, data_placement) (rw (placed, data_placement) refl),
        (three, small, length-set l.blocks (own_block a o l k) b' ∙ same),
      )

  place_rows_returns :
      (l : Leaf o) (rows : List (Double × ℕ))
      → IsLeafRows a o rows
      → HasBlocks l
      → (l' : Leaf o) × (place_rows a o l rows ≡ some l')
  unfolding place_rows
  place_rows_returns l [] r w = (l, refl)
  place_rows_returns l ((k, v) ∷ rows) (number, payload, used, apart, r) w =
      let (l1, e, w1) = data_placement_returns l k v number payload w in
      let (l', h) = place_rows_returns l1 rows r w1 in (l', rw (e, place_rows) h)

  -- The constructor returns a leaf for rows, each with a number for its key that is neither that of a free
  -- slot nor of another row and a payload other than 0, and for 3 to 2 ^ 28 - 1 blocks. The leaf has every
  -- row in the block where a search looks for its key, and no other key.
  pub leaf_find-new_leaf :
      (garbage block_number start_pos : ℕ) (k0 : Double) (v0 : ℕ) (rest : List (Double × ℕ))
      (line : Line)
      → 3 ≤ block_number
      → block_number < 2 ^ 28
      → IsLeafRows a o ((k0, v0) ∷ rest)
      → (l : Leaf o) × (new_leaf a o garbage block_number ((k0, v0) ∷ rest) start_pos line ≡ some l)
        × ((i : ℕ) (k : Double) (v : ℕ)
            → get_elem? ((k0, v0) ∷ rest) i ≡ some (k, v)
            → leaf_find a o l k ≡ some v)
        × ((j : Double)
            → double_eq j free_flag ≡ false
            → ((i : ℕ) (k : Double) (v : ℕ)
                → get_elem? ((k0, v0) ∷ rest) i ≡ some (k, v)
                → double_eq k j ≡ false)
            → leaf_find a o l j ≡ none)
  unfolding new_leaf HasBlocks
  leaf_find-new_leaf garbage block_number start_pos k0 v0 rest line three small r =
      let corrected =
        leaf_line a line (block_number % 2 ^ 32) start_pos k0 (last_row_key a o k0 rest) in
      let start = empty_leaf a o garbage corrected block_number k0 in
      let rows = (k0, v0) ∷ rest in
      let same : block_number % 2 ^ 32 ≡ block_number = omega (arith, small) in
      let blocks : HasBlocks start = (
        omega (arith, three, small),
        omega (arith, small),
        length-replicate (block_number % 2 ^ 32) (empty_block a o garbage),
      ) in
      let (l, h) = place_rows_returns start rows r blocks in
      let none_yet = λ (i : ℕ) (k : Double) (v : ℕ) (e : get_elem? rows i ≡ some (k, v)).
        empty_find a o (block_number % 2 ^ 32) (own_block a o start k) garbage k
          (row_used a o rows r i k v e) in
      (
        l,
        h,
        leaf_find_placed a o rows start l r none_yet h,
        λ j used other.
            leaf_find_kept a o rows start l j r none_yet used other h
            ∙ empty_find a o (block_number % 2 ^ 32) (own_block a o start j) garbage j used,
      )

-- ===== src/PlinIndex/LeafTests.antt =====
-- A leaf of three blocks that is made of two rows.
use plin_cloud_edge_device_l.Common.{
  arith, ℕ, zero, suc, ◌≡◌, refl, false, List, [], ◌∷◌, none, some, get_elem?, set, replicate,
}
use plin_cloud_edge_device_l.Double.{Double, is_nan, rank, double_eq, double_lt}
use mathlib.Core.Path.{ap}
use mathlib.Core.Option.{some-injective}
use plin_cloud_edge_device_l.Plin.Tests.{small}
use plin_cloud_edge_device_l.PlinIndex.{free_flag}
use plin_cloud_edge_device_l.PlinIndex.Model.{Line, leaf_line, model_correction}
use plin_cloud_edge_device_l.PlinIndex.Leaf.{DataSlot, Leaf, insert_slot, leaf_predict_block}
use plin_cloud_edge_device_l.PlinIndex.Btrees.{btrees}
use plin_cloud_edge_device_l.PlinIndex.MadeLeaf.{leaf_find-new_leaf}
use plin_cloud_edge_device_l.PlinIndex.NewLeaf.{
  block_placement, data_placement, place_rows, empty_block, empty_leaf, new_leaf, leaf_find,
  IsLeafRows,
}

abbrev two_rows : List (Double × ℕ)
two_rows = (10, 4) ∷ (12, 8) ∷ []

abbrev second_row : List (Double × ℕ)
second_row = (12, 8) ∷ []

abbrev line : Line
line = record { slope = 2; intercept = 0 }

abbrev free_slot : DataSlot
free_slot = record { key = free_flag; payload = 0 }

abbrev made : Leaf btrees
made = record (empty_leaf small btrees 0 (leaf_line small line 3 0 10 12) 3 10) {
  blocks = set (replicate 3 (empty_block small btrees 0)) 1 (record (empty_block small btrees 0) {
    slots =
        record { key = 10; payload = 4 }
        ∷ record { key = 12; payload = 8 }
        ∷ replicate 13 free_slot;
  });
}

built : new_leaf small btrees 0 3 two_rows 0 line ≡ some made
unfolding new_leaf place_rows data_placement block_placement insert_slot leaf_predict_block
    leaf_line model_correction double_eq double_lt is_nan rank
built = refl

apart : (i : ℕ) (j : Double) (u : ℕ) → get_elem? second_row i ≡ some (j, u) → double_eq 10 j ≡ false
unfolding double_eq is_nan rank
apart zero j u e = let q : 12 ≡ j = ap (λ x. x.0) (some-injective _ _ e) in rw (← q) refl
apart (suc i) j u e = cc

two_rows-IsLeafRows : IsLeafRows small btrees two_rows
unfolding double_eq is_nan rank
two_rows-IsLeafRows = (refl, refl, refl, apart, (refl, refl, refl, λ i j u e. cc, tt))

leaf_find-new_leaf_example :
    (l : Leaf btrees) × (new_leaf small btrees 0 3 two_rows 0 line ≡ some l)
    × ((i : ℕ) (k : Double) (v : ℕ)
        → get_elem? two_rows i ≡ some (k, v)
        → leaf_find small btrees l k ≡ some v)
    × ((j : Double)
        → double_eq j free_flag ≡ false
        → ((i : ℕ) (k : Double) (v : ℕ)
            → get_elem? two_rows i ≡ some (k, v)
            → double_eq k j ≡ false)
        → leaf_find small btrees l j ≡ none)
leaf_find-new_leaf_example =
    leaf_find-new_leaf small btrees 0 3 0 10 4 second_row line (omega arith) (omega arith)
      two_rows-IsLeafRows

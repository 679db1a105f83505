-- ===== src/PlinIndex/InnerTests.antt =====
-- An inner node of eight blocks with three slots, on a processor where a key's block is an eighth of its rank.
use plin_cloud_edge_device_l.Common.{
  ℕ, zero, suc, ◌-◌, ◌/◌, ◌^◌, ◌≡◌, refl, true, List, [], ◌∷◌, some, arith, All, get_elem?, set,
  replicate,
}
use mathlib.Core.Path.{subst}
use mathlib.Core.Option.{some-injective}
use plin_cloud_edge_device_l.Common.Int.{pos}
use plin_cloud_edge_device_l.Double.{Double, is_nan, rank, double_eq, double_le, double_lt}
use plin_cloud_edge_device_l.Plin.Predict.{Arith, predict_block}
use plin_cloud_edge_device_l.Plin.Tests.{small}
use plin_cloud_edge_device_l.PlinIndex.{free_flag}
use plin_cloud_edge_device_l.PlinIndex.Slot.{InnerSlot}
use plin_cloud_edge_device_l.PlinIndex.Model.{Line, inner_line}
use plin_cloud_edge_device_l.PlinIndex.Inner.{
  InnerNode, first_free, free_place, data_placement, place_all, empty_node, build_accelerator,
  new_inner, search,
}
use plin_cloud_edge_device_l.PlinIndex.Search.{IsRising}
use plin_cloud_edge_device_l.PlinIndex.Filling.{IsRows}
use plin_cloud_edge_device_l.PlinIndex.NewInner.{search-new_inner}

abbrev ranked : Arith
ranked = record small { block_at = λ k s i. pos ((rank k - 2 ^ 63) / 8) }

ranked-IsRising : (s : InnerSlot) → IsRising ranked s
unfolding double_le
ranked-IsRising s x y h = ground arith

abbrev leaf_slot : Double → ℕ → InnerSlot
leaf_slot key ptr = record { min_key = key; ptr = ptr; slope = 1; intercept = 0; info = 3 }

abbrev rows : List (Double × InnerSlot)
rows = (10, leaf_slot 10 0) ∷ (20, leaf_slot 20 1) ∷ (30, leaf_slot 30 2) ∷ []

abbrev line : Line
line = record { slope = 2; intercept = 1 }

abbrev corrected : Line
corrected = inner_line ranked line 8 0 10 30

abbrev garbage : InnerSlot
garbage = leaf_slot 77 5

abbrev accelerator : InnerSlot
accelerator = build_accelerator garbage corrected 8 10 0

abbrev node : InnerNode
node = record (empty_node garbage corrected 8 3 10 1) {
  slots =
      set
        (set (set (replicate 64 (record garbage { min_key = free_flag })) 16 (leaf_slot 10 0)) 24
          (leaf_slot 20 1))
        32 (leaf_slot 30 2);
}

built : new_inner ranked garbage garbage 0 8 rows 0 line 1 ≡ some (node, accelerator)
unfolding new_inner place_all data_placement free_place first_free predict_block double_eq is_nan
    rank
built = refl

each :
    (P : Double × InnerSlot → Type 0) (xs : List (Double × InnerSlot))
    → All P xs
    → (i : ℕ) (x : Double × InnerSlot) → get_elem? xs i ≡ some x
    → P x
each P [] h i x e = cc
each P (y ∷ xs) (p, h) zero x e = subst P (some-injective _ _ e) p
each P (y ∷ xs) (p, h) (suc i) x e = each P xs h i x e

abbrev Above : Double → Double × InnerSlot → Type 0
Above k x = double_lt k x.1.min_key ≡ true

rows-IsRows : IsRows rows
unfolding double_eq double_lt is_nan rank
rows-IsRows = (
  refl,
  refl,
  λ i j t e.
      each (Above 10) ((20, leaf_slot 20 1) ∷ (30, leaf_slot 30 2) ∷ []) (refl, (refl, tt)) i (j, t)
        e,
  (
    refl,
    refl,
    λ i j t e. each (Above 20) ((30, leaf_slot 30 2) ∷ []) (refl, tt) i (j, t) e,
    (refl, refl, λ i j t e. each (Above 30) [] tt i (j, t) e, tt),
  ),
)

-- Of the keys not above 25 none is above 20.
last :
    (j : ℕ) (k : Double) (s : InnerSlot)
    → get_elem? rows j ≡ some (k, s)
    → double_le k 25 ≡ true
    → double_le k 20 ≡ true
unfolding double_le is_nan rank
last j k s e le =
    each (λ x. double_le x.0 25 ≡ true → double_le x.0 20 ≡ true) rows
      (λ h. refl, (λ h. refl, (λ h. h, tt))) j (k, s) e le

search-new_inner_example :
    (slot : ℕ) × (search ranked node.slots accelerator 25 ≡ some slot)
    × (get_elem? node.slots slot ≡ some (leaf_slot 20 1))
search-new_inner_example =
    search-new_inner ranked garbage garbage accelerator 0 8 0 1 rows line node 25 20 1
      (leaf_slot 20 1) rows-IsRows (omega arith) (omega arith) built (ranked-IsRising accelerator)
      refl (unfold double_le is_nan rank in refl) last

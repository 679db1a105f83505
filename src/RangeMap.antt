-- ===== src/RangeMap.antt =====
-- src/common/range_map.h and range_map.cpp: the topology and the lookups in it.
-- An `int` is an integer of Common/Int; the ids of a topology are small, so they do not overflow.
pub mod Step
pub mod Locate
pub mod Total
pub mod Siblings
pub mod Tests
use plin_cloud_edge_device_l.Common.{
  ℕ, zero, suc, ◌+◌, ◌-◌, ◌/◌, Bool, true, false, not, ◌&&◌, List, [], ◌∷◌, Option, none, some, leb,
  ◌==◌, if◌then◌else◌, length, get_elem?,
}
use plin_cloud_edge_device_l.Common.Int.{ℤ, pos, negsuc, ltb_ℤ, leb_ℤ, ◌==ℤ◌}
use mathlib.Core.Option.{get_or}
use plin_cloud_edge_device_l.Double.{Double, double_lt}

pub record EndInfo : Type 0 where
  pub id : ℤ
  pub edge_id : ℤ
  pub host : List ℕ
  pub port : ℕ
  pub key_lo : Double
  pub key_hi : Double

-- The loop of `locate_end`; `none` means that the fuel ran out or that the vector was read out of
-- range. `hi = mid - 1` is -1 at `mid = 0`, and then the loop ends.
unfoldable pub locate_loop : ℕ → List EndInfo → Double → ℕ → ℕ → Option ℤ
locate_loop zero ends k lo hi = none
locate_loop (suc fuel) ends k lo hi =
    let mid = (lo + hi) / 2 in
    let left = if mid == 0 then some (negsuc 0) else locate_loop fuel ends k lo (mid - 1) in
    let right = locate_loop fuel ends k (mid + 1) hi in
    let visit = λ (e : EndInfo).
      if double_lt k e.key_lo then left else if double_lt e.key_hi k then right else some e.id in
    if leb lo hi
    then elim (get_elem? ends mid) [ none ↦ none | some e ↦ visit e ]
    else some (negsuc 0)

unfoldable pub locate : List EndInfo → Double → Option ℤ
unfolding locate_loop
locate [] k = some (negsuc 0)
locate (e ∷ ends) k = locate_loop (suc (suc (length ends))) (e ∷ ends) k 0 (length ends)

-- The value that `locate_end` returns. `RangeMap.Total` shows that `locate` always has one.
unfoldable pub locate_end : List EndInfo → Double → ℤ
locate_end ends k = get_or (locate ends k) (negsuc 0)

unfoldable pub edge_of : List EndInfo → ℤ → ℤ
edge_of [] end_id = negsuc 0
edge_of (e ∷ ends) end_id = if e.id ==ℤ end_id then e.edge_id else edge_of ends end_id

-- The loop of `siblings_of` over `ends_`, with `my_edge` computed.
unfoldable pub siblings_loop : List EndInfo → ℤ → ℤ → List ℤ
siblings_loop [] my_edge end_id = []
siblings_loop (e ∷ ends) my_edge end_id =
    let rest = siblings_loop ends my_edge end_id in
    if e.edge_id ==ℤ my_edge && not (e.id ==ℤ end_id) then e.id ∷ rest else rest

unfoldable pub siblings_of : List EndInfo → ℤ → List ℤ
siblings_of ends end_id =
    let my_edge = edge_of ends end_id in
    if ltb_ℤ my_edge (pos 0) then [] else siblings_loop ends my_edge end_id

unfoldable pub same_edge : List EndInfo → ℤ → ℤ → Bool
same_edge ends a b = (edge_of ends a ==ℤ edge_of ends b) && leb_ℤ (pos 0) (edge_of ends a)

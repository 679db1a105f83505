-- ===== src/Cloud/Ranking.antt =====
-- `end_for_position` and `build_hot_positions_by_end` of src/cloud/cloud_server.cpp.
pub mod Bounds
use plin_cloud_edge_device_l.Common.{
  ℕ, ◌+◌, ◌-◌, ◌/◌, Bool, ◌&&◌, ◌||◌, List, [], ◌∷◌, none, some, ltb, if◌then◌else◌, map, get_elem?,
  set, take, replicate,
}
use plin_cloud_edge_device_l.Common.Int.{ℤ, pos, negsuc, pos_part, leb_ℤ, ◌==ℤ◌}

-- Positions count from 1, and each of the ten Ends holds a million rows, the last one the others too.
unfoldable pub end_for_position : ℤ → ℕ → ℤ
end_for_position key_pos data_size =
    if leb_ℤ key_pos (pos 0) || ltb data_size (pos_part key_pos)
    then negsuc 0
    else let end_id = (pos_part key_pos - 1) / 1_000_000 + 1 in
      if ltb end_id 1 then negsuc 0 else if ltb 10 end_id then pos 10 else pos end_id

-- `counts[end_id][key_pos] += 1` on the map of one End.
unfoldable pub add_hit : ℤ → List (ℤ × ℕ) → List (ℤ × ℕ)
add_hit key_pos [] = (key_pos, 1) ∷ []
add_hit key_pos ((p, n) ∷ counts) =
    let rest = add_hit key_pos counts in
    if p ==ℤ key_pos then (p, n + 1) ∷ counts else (p, n) ∷ rest

-- The first loop, over the positions of the workload.
unfoldable pub count_hits : List ℤ → ℕ → List (List (ℤ × ℕ)) → List (List (ℤ × ℕ))
count_hits [] data_size counts = counts
count_hits (p ∷ ps) data_size counts =
    let end_id = end_for_position p data_size in
    let hits : List (ℤ × ℕ) = elim (get_elem? counts (pos_part end_id)) [
      | none ↦ []
      | some m ↦ m
    ] in
    count_hits ps data_size (
      if leb_ℤ (pos 1) end_id && leb_ℤ end_id (pos 10)
      then set counts (pos_part end_id) (add_hit p hits)
      else counts)

abbrev pub Ranked : Type 0
Ranked = ℕ × ℤ

-- The comparison that `std::sort` is given: the higher count goes first.
unfoldable pub by_count : Ranked → Ranked → Bool
by_count a b = ltb b.0 a.0

-- The second loop. `sort` is `std::sort`; the order in which an unordered map is walked is that of its
-- entries here.
unfoldable pub best :
    ((Ranked → Ranked → Bool) → List Ranked → List Ranked) → ℤ → List (List (ℤ × ℕ)) → List (List ℤ)
best sort max_per_end [] = []
best sort max_per_end (m ∷ maps) =
    let ranked = sort by_count (map (λ e. (e.1, e.0)) m) in
    map (λ r. r.1) (take (pos_part max_per_end) ranked) ∷ best sort max_per_end maps

unfoldable pub tail_or_empty {ℓ} : {A : Type ℓ} → List A → List A
tail_or_empty [] = []
tail_or_empty (x ∷ xs) = xs

-- The place of id 0 stays empty.
unfoldable pub build_hot_positions_by_end :
    ((Ranked → Ranked → Bool) → List Ranked → List Ranked) → List ℤ → ℕ → ℤ → List (List ℤ)
build_hot_positions_by_end sort positions data_size max_per_end =
    [] ∷ best sort max_per_end (tail_or_empty (count_hits positions data_size (replicate 11 [])))

-- ===== src/Cloud/Tests.antt =====
-- Requests of one Edge for a key of another, and hot keys for an End.
use plin_cloud_edge_device_l.Common.{
  List, ◌<◌, ◌≤◌, All, ℕ, zero, suc, Bool, if◌then◌else◌, ◌^◌, ◌≡◌, refl, ◌⊎◌, inl, inr, true, [],
  ◌∷◌, ◌++◌, ◌/◌, some, arith, length, get_elem?, Bool-cases,
}
use plin_cloud_edge_device_l.Common.Int.{negsuc, ℤ, pos, ◌≤ℤ◌}
use plin_cloud_edge_device_l.Double.{is_nan}
use plin_cloud_edge_device_l.Bytes.{le_bytes, of_le_bytes, load_le, read_double, append_u32}
use plin_cloud_edge_device_l.Proto.{Frame, cross_edge_req, edge_fetch_resp}
use plin_cloud_edge_device_l.RangeMap.{edge_of}
use plin_cloud_edge_device_l.RangeMap.Tests.{
  end_two, topology, topology-IsTopology, six, end_two-Contains,
}
use mathlib.Core.Path.{subst}
use mathlib.Core.Option.{some-injective}
use plin_cloud_edge_device_l.Cloud.{Data, Server, edge_conn}
use plin_cloud_edge_device_l.Cloud.Route.{handle_cross_edge_req}
use plin_cloud_edge_device_l.Cloud.Hot.{emit_loop}
use plin_cloud_edge_device_l.Cloud.Ranking.{
  end_for_position, add_hit, count_hits, Ranked, by_count, best, tail_or_empty,
  build_hot_positions_by_end,
}
use plin_cloud_edge_device_l.Cloud.Ranking.Bounds.{
  IsRow, end_for_position_lem, Keeps, IsRanking, build_hot_positions_by_end-IsRanking,
}
use plin_cloud_edge_device_l.Cloud.Routing.{
  exchanged, Replies, handle_cross_edge_req-Contains, handle_cross_edge_req-Replies,
}
use plin_cloud_edge_device_l.Cloud.Updates.{IsData, IsOwned, update_pairs-emit_loop}
use plin_cloud_edge_device_l.End.{i32_bits}
use plin_cloud_edge_device_l.End.Control.{update_pairs}
use plin_cloud_edge_device_l.Edge.FromCloud.{to_end}

-- Two rows of the data file, with the keys 6.0 and 1.0.
abbrev data_file : Data
data_file = record {
  rm = topology;
  keys = six ∷ 0x3ff0_0000_0000_0000 ∷ [];
  payloads = 42 ∷ 43 ∷ [];
}

-- The request number 0 for the key 6.0.
abbrev request : Frame
request = record { kind = cross_edge_req; body = le_bytes 8 0 ++ le_bytes 8 six }

abbrev response : Frame
response = record { kind = edge_fetch_resp; body = 0 ∷ 42 ∷ [] }

-- Edge 1 on socket 5.
abbrev server : Server
server = record {
  edges = (pos 2, 6) ∷ (pos 1, 5) ∷ [];
  sent = [];
  writes = true ∷ true ∷ [];
  replies = some response ∷ [];
}

handle_cross_edge_req-Contains_example :
    handle_cross_edge_req data_file 6 request server ≡ exchanged 6 5 request response [] [] server
handle_cross_edge_req-Contains_example =
    handle_cross_edge_req-Contains data_file 6 5 request response six 1 end_two [] [] server
      (unfold read_double load_le le_bytes of_le_bytes in refl) topology-IsTopology
      (unfold is_nan in refl) refl end_two-Contains (unfold edge_of in refl) (ground arith)
      (ground arith) (unfold edge_conn in refl) refl refl

handle_cross_edge_req-Replies_example :
    Replies 6 request server.edges [] (handle_cross_edge_req data_file 6 request server).sent
handle_cross_edge_req-Replies_example =
    handle_cross_edge_req-Replies data_file 6 request server true [] refl (inl refl)

key_fits : (i k : ℕ) → get_elem? data_file.keys i ≡ some k → k < 2 ^ 64
key_fits zero k h = subst (λ x. x < 2 ^ 64) (some-injective _ k h) (omega arith)
key_fits (suc zero) k h = subst (λ x. x < 2 ^ 64) (some-injective _ k h) (omega arith)
key_fits (suc (suc i)) k h = cc

payload_fits : (i v : ℕ) → get_elem? data_file.payloads i ≡ some v → v < 2 ^ 64
payload_fits zero v h = subst (λ x. x < 2 ^ 64) (some-injective _ v h) (omega arith)
payload_fits (suc zero) v h = subst (λ x. x < 2 ^ 64) (some-injective _ v h) (omega arith)
payload_fits (suc (suc i)) v h = cc

data_file-IsData : IsData data_file
data_file-IsData = (key_fits, payload_fits)

update_pairs-emit_loop_example :
    let (emitted, body) =
      emit_loop data_file
        (pos 2)
        (pos 8)
        (pos 2 ∷ pos 1 ∷ pos 9 ∷ [])
        0
        (append_u32 [] (i32_bits (pos 2))) in
    let received = (to_end body).body in
    let kv = update_pairs (length received / 16) 0 received in
    All (IsOwned data_file (pos 2) (pos 2 ∷ pos 1 ∷ pos 9 ∷ [])) kv
    × (length kv ≡ emitted)
    × ((emitted ≤ 1) ⊎ (pos emitted ≤ℤ pos 8))
update_pairs-emit_loop_example =
    update_pairs-emit_loop data_file (pos 2) (pos 8) (pos 2 ∷ pos 1 ∷ pos 9 ∷ []) data_file-IsData

-- A position of End 1, one of End 3 twice, and one behind the last row.
abbrev workload : List ℤ
workload = pos 5 ∷ pos 2_000_001 ∷ pos 9_000_000 ∷ pos 2_000_001 ∷ []

end_for_position_lem_example :
    ((end_for_position (pos 2_000_001) 3_000_000 ≡ negsuc 0)
      × ((pos 2_000_001 ≤ℤ pos 0) ⊎ (3_000_000 < 2_000_001)))
    ⊎ ((n e : ℕ) × (pos 2_000_001 ≡ pos n)
        × (end_for_position (pos 2_000_001) 3_000_000 ≡ pos e)
        × IsRow 3_000_000 e n)
end_for_position_lem_example = end_for_position_lem (pos 2_000_001) 3_000_000

-- A sort by insertion.
insert_before : (Ranked → Ranked → Bool) → Ranked → List Ranked → List Ranked
insert_before before r [] = r ∷ []
insert_before before r (x ∷ xs) =
    let rest = insert_before before r xs in if before x r then x ∷ rest else r ∷ x ∷ xs

insertion_sort : (Ranked → Ranked → Bool) → List Ranked → List Ranked
unfolding insert_before
insertion_sort before [] = []
insertion_sort before (x ∷ xs) = insert_before before x (insertion_sort before xs)

All-insert_before :
    (before : Ranked → Ranked → Bool) (P : Ranked → Type 0) (r : Ranked) (xs : List Ranked)
    → P r
    → All P xs
    → All P (insert_before before r xs)
unfolding insert_before
All-insert_before before P r [] h hs = (h, tt)
All-insert_before before P r (x ∷ xs) h (hx, hs) = elim (Bool-cases (before x r)) [
  | inl t ↦ rw t (hx, All-insert_before before P r xs h hs)
  | inr t ↦ rw t (h, (hx, hs))
]

insertion_sort-Keeps : Keeps insertion_sort
unfolding insertion_sort
insertion_sort-Keeps before P [] h = tt
insertion_sort-Keeps before P (x ∷ xs) (h, hs) =
    All-insert_before before P x (insertion_sort before xs) h (insertion_sort-Keeps before P xs hs)

ranked_at_3 :
    get_elem? (build_hot_positions_by_end insertion_sort workload 3_000_000 (pos 2)) 3
    ≡ some (pos 2_000_001 ∷ [])
unfolding build_hot_positions_by_end count_hits end_for_position add_hit best tail_or_empty
    insertion_sort insert_before by_count
ranked_at_3 = refl

build_hot_positions_by_end-IsRanking_example : IsRanking 3_000_000 (pos 2) 3 (pos 2_000_001 ∷ [])
build_hot_positions_by_end-IsRanking_example =
    build_hot_positions_by_end-IsRanking insertion_sort workload 3_000_000 (pos 2) 3
      (pos 2_000_001 ∷ []) insertion_sort-Keeps ranked_at_3

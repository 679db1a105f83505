-- ===== src/End/Tests.antt =====
-- An End with the keys from 4.0 to 8.0, and an Edge that answers.
use plin_cloud_edge_device_l.Common.{
  arith, ◌-◌, ◌^◌, ◌≤◌, ◌≡◌, refl, inl, inr, true, false, List, [], ◌∷◌, ◌++◌, some, none,
}
use plin_cloud_edge_device_l.Common.Int.{pos}
use plin_cloud_edge_device_l.Bytes.{append_u64, le_bytes, of_le_bytes, load_le}
use plin_cloud_edge_device_l.Double.{Double, is_nan, rank, double_lt, double_eq}
use plin_cloud_edge_device_l.Proto.{
  Frame, hot_update, cross_edge_req, edge_fetch_resp, edge_fetch_req,
}
use plin_cloud_edge_device_l.RangeMap.{locate, locate_end, locate_loop, edge_of, same_edge}
use plin_cloud_edge_device_l.RangeMap.Tests.{topology, six}
use plin_cloud_edge_device_l.Store.Tests.{list_cuckoo, list_btree}
use plin_cloud_edge_device_l.Store.{batch_upsert}
use plin_cloud_edge_device_l.Plin.Tests.{small}
use plin_cloud_edge_device_l.Snapshot.{SnapshotInfo, snapshot_magic}
use plin_cloud_edge_device_l.Snapshot.RoundTrip.{IsInfo}
use plin_cloud_edge_device_l.Edge.Serve.{make_rdma_snapshot_info}
use plin_cloud_edge_device_l.Edge.Announced.{apply_edge_control_frame-make_rdma_snapshot_info}
use plin_cloud_edge_device_l.Snapshot.Lookup.{rdma_snapshot_lookup}
use plin_cloud_edge_device_l.Plin.Predict.{cached_pos, loaded}
use plin_cloud_edge_device_l.End.{State, Node, no_hits, write_frame, conn_write, i32_bits}
use plin_cloud_edge_device_l.End.Control.{apply_edge_control_frame, update_pairs}
use plin_cloud_edge_device_l.End.Fetch.{
  Fetched, decode_response, response_loop, edge_fetch, cross_edge_fetch, fresh_request_id, exchange,
  read_fetch_response,
}
use plin_cloud_edge_device_l.End.Fetch.Response.{
  apply_all, after_controls, response_loop-apply_all, response_loop_fails,
}
use plin_cloud_edge_device_l.End.Lookup.{
  Bench, run_benchmark, lookup, finish, LookupResult, cross_edge, hot_cache, remote_stage,
  remote_stages, network_stages, sibling_stage, fetch_from_edge, predicted_slot, warm, refresh,
  count, count_result, count_stage, local_result,
}
use plin_cloud_edge_device_l.End.Lookup.Warm.{lookup_again}
use plin_cloud_edge_device_l.End.Lookup.Stages.{queries, total, run_benchmark_lem}

abbrev no_snapshot : SnapshotInfo
no_snapshot = record {
  magic = 0;
  version = 0;
  desc_addr = 0;
  desc_rkey = 0;
  leaf_count = 0;
  record_addr = 0;
  record_rkey = 0;
  record_count = 0;
}

abbrev state : State list_cuckoo
state = record {
  hot_cache = [];
  plin_cache = record { parameter = [] };
  rdma_snapshot = record { info = no_snapshot; is_loaded = false };
  conn = record {
    incoming = [];
    sent = [];
    writes = true ∷ true ∷ [];
    remote = record { supports_remote_read = false; read_remote = λ a k n. none };
  };
  stats = no_hits;
  next_request_id = 1;
}

-- The key 6.0 becomes hot.
abbrev update : Frame
update = record { kind = hot_update; body = le_bytes 8 six ++ le_bytes 8 42 }

-- The payload 43, found.
abbrev fetch_answer : Frame
fetch_answer = record { kind = edge_fetch_resp; body = 0 ∷ (le_bytes 8 43 ++ (0 ∷ [])) }

abbrev asked : Fetched
asked = record { success = false; out = 0; stale = false }

response_loop-apply_all_example :
    response_loop list_cuckoo (some update ∷ some fetch_answer ∷ none ∷ []) asked state
    ≡ after_controls list_cuckoo
        (apply_all list_cuckoo (update ∷ []) state)
        (decode_response fetch_answer.body asked)
        (none ∷ [])
response_loop-apply_all_example =
    response_loop-apply_all list_cuckoo (update ∷ []) fetch_answer (none ∷ []) asked state
      (inr (inl refl), tt) refl

update_applied :
    apply_all list_cuckoo (update ∷ []) state
    ≡ some (tt, record state { hot_cache = (six, 42) ∷ [] })
unfolding apply_edge_control_frame update_pairs batch_upsert load_le le_bytes of_le_bytes
update_applied = refl

response_loop_fails_example :
    response_loop list_cuckoo (some update ∷ []) asked state
    ≡ some (asked, record state { hot_cache = (six, 42) ∷ [] })
response_loop_fails_example =
    response_loop_fails list_cuckoo (update ∷ []) asked state
      (record state { hot_cache = (six, 42) ∷ [] }) (inr (inl refl), tt) update_applied

abbrev node : Node list_btree
node = record { id = pos 2; rm = topology; store = (six, 42) ∷ []; edge = true }

-- Before the benchmark the fetch_answer to the second of its keys is on its way.
abbrev start : State list_cuckoo
start = record state { conn = record state.conn { incoming = some fetch_answer ∷ [] } }

abbrev one : Double
one = 0x3ff0_0000_0000_0000

abbrev no_queries : Bench
no_queries = record { found = 0; stage1 = 0; stage2 = 0; stage3 = 0; stage4 = 0 }

-- A key of its own, one of the sibling, and that one again.
abbrev bench_keys : List Double
bench_keys = six ∷ one ∷ one ∷ []

abbrev report : Bench
report = record { found = 3; stage1 = 1; stage2 = 1; stage3 = 1; stage4 = 0 }

abbrev finish_state : State list_cuckoo
finish_state = record state {
  hot_cache = (one, 43) ∷ [];
  conn = record state.conn {
    incoming = [];
    sent = record { kind = edge_fetch_req; body = le_bytes 8 one ++ le_bytes 4 (2 ^ 32 - 1) } ∷ [];
    writes = true ∷ [];
  };
  stats = record { hit_local = 1; hit_hot = 1; hit_edge = 1; miss_cross = 0 };
}

benchmark_run :
    run_benchmark small list_cuckoo list_btree node bench_keys no_queries start
    ≡ some (report, finish_state)
unfolding run_benchmark lookup locate_end locate locate_loop double_lt is_nan rank edge_of same_edge
    double_eq finish remote_stages network_stages sibling_stage fetch_from_edge predicted_slot
    cached_pos loaded rdma_snapshot_lookup edge_fetch exchange write_frame conn_write
    read_fetch_response response_loop warm refresh decode_response load_le le_bytes of_le_bytes
    count count_result count_stage local_result i32_bits
benchmark_run = refl

run_benchmark_lem_example :
    (queries small list_cuckoo list_btree report ≡ 3) × (total finish_state.stats ≡ 3) × (3 ≤ 3)
run_benchmark_lem_example =
    run_benchmark_lem small list_cuckoo list_btree node bench_keys no_queries report start
      finish_state benchmark_run

-- The key 20.0, of an End on another Edge, is answered through the Cloud.
abbrev twenty : Double
twenty = 0x4034_0000_0000_0000

abbrev fetched : State list_cuckoo
fetched = record state {
  hot_cache = (twenty, 43) ∷ [];
  conn = record state.conn {
    incoming = [];
    sent = record { kind = cross_edge_req; body = le_bytes 8 1 ++ le_bytes 8 twenty } ∷ [];
    writes = true ∷ [];
  };
  stats = record { hit_local = 0; hit_hot = 0; hit_edge = 0; miss_cross = 1 };
  next_request_id = 2;
}

abbrev found_far : LookupResult
found_far = record { found = true; payload = 43; stage = cross_edge }

lookup_of_twenty : lookup small list_cuckoo list_btree node twenty start ≡ some (found_far, fetched)
unfolding lookup locate_end locate locate_loop double_lt is_nan rank edge_of same_edge double_eq
    finish remote_stages network_stages remote_stage cross_edge_fetch fresh_request_id exchange
    write_frame conn_write read_fetch_response response_loop warm decode_response load_le le_bytes
    of_le_bytes count append_u64
lookup_of_twenty = refl

lookup_again_example :
    lookup small list_cuckoo list_btree node twenty fetched
    ≡ some (
      record { found = true; payload = 43; stage = hot_cache },
      record fetched { stats = count hot_cache fetched.stats },
    )
lookup_again_example =
    lookup_again small list_cuckoo list_btree node twenty start fetched found_far
      (unfold is_nan in refl) (unfold locate_end locate locate_loop double_lt is_nan rank in refl)
      (unfold locate_end locate locate_loop double_lt is_nan rank same_edge edge_of in refl)
      lookup_of_twenty refl

abbrev announced : SnapshotInfo
announced = record {
  magic = snapshot_magic;
  version = 1;
  desc_addr = 0x7000_0000_0000;
  desc_rkey = 77;
  leaf_count = 4;
  record_addr = 0x7000_0000_1000;
  record_rkey = 78;
  record_count = 100;
}

announced-IsInfo : IsInfo announced
announced-IsInfo = record {
  magic = omega arith;
  version = omega arith;
  desc_addr = omega arith;
  desc_rkey = omega arith;
  leaf_count = omega arith;
  record_addr = omega arith;
  record_rkey = omega arith;
  record_count = omega arith;
}

apply_edge_control_frame-make_rdma_snapshot_info_example :
    apply_edge_control_frame list_cuckoo (make_rdma_snapshot_info 5 announced) state
    ≡ some (tt, record state { rdma_snapshot = record { info = announced; is_loaded = true } })
apply_edge_control_frame-make_rdma_snapshot_info_example =
    apply_edge_control_frame-make_rdma_snapshot_info list_cuckoo 5 announced state announced-IsInfo
      refl (omega arith) (omega arith)

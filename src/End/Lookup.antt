-- ===== src/End/Lookup.antt =====
-- `EndNode::lookup` of src/end/end_node.cpp, stage by stage, and the counting of `run_benchmark`.
pub mod Stages
pub mod Warm
use plin_cloud_edge_device_l.Common.{
  ℕ, zero, suc, ◌+◌, Bool, true, false, ◌&&◌, List, [], ◌∷◌, Option, none, some, if◌then◌else◌,
}
use plin_cloud_edge_device_l.Common.Int.{ℤ, pos, ◌==ℤ◌, leb_ℤ}
use plin_cloud_edge_device_l.Double.{Double}
use plin_cloud_edge_device_l.RangeMap.{EndInfo, locate_end, same_edge}
use plin_cloud_edge_device_l.Plin.Predict.{Arith, cached_pos}
use plin_cloud_edge_device_l.Snapshot.Lookup.{
  RdmaLookup, hit, miss, unavailable, rdma_snapshot_lookup,
}
use plin_cloud_edge_device_l.Store.{CuckooMap, BtreeMap}
use plin_cloud_edge_device_l.End.{Node, State, Stats, M, ◌>>=◌}
use plin_cloud_edge_device_l.End.Fetch.{Fetched, edge_fetch, cross_edge_fetch, request_param_push}

pub data LookupStage : Type 0 where
  local hot_cache edge_plin cross_edge : LookupStage

pub record LookupResult : Type 0 where
  pub found : Bool
  pub payload : ℕ
  pub stage : LookupStage

-- A result as it is constructed.
abbrev pub not_found : LookupResult
not_found = record { found = false; payload = 0; stage = local }

-- `++stats_.…` of each stage.
unfoldable pub count : LookupStage → Stats → Stats
count local t = record t { hit_local = t.hit_local + 1 }
count hot_cache t = record t { hit_hot = t.hit_hot + 1 }
count edge_plin t = record t { hit_edge = t.hit_edge + 1 }
count cross_edge t = record t { miss_cross = t.miss_cross + 1 }

module _ (a : Arith) (c : CuckooMap) (t : BtreeMap) where
  -- Count a lookup under a stage and return its result.
  unfoldable pub finish : LookupStage → LookupResult → M c LookupResult
  finish stage r s = some (r, record s { stats = count stage s.stats })

  unfoldable pub local_result : Option ℕ → LookupResult
  local_result none = not_found
  local_result (some v) = record { found = true; payload = v; stage = local }

  -- `if (ok) hot_cache_.upsert(k, v)`.
  unfoldable pub warm : Bool → Double → ℕ → M c (Unit {0})
  warm ok k v s =
      some (tt, if ok then record s { hot_cache = c.insert_or_assign s.hot_cache k v } else s)

  -- `if (stale) request_param_push(...)`, the result ignored.
  unfoldable pub refresh : Bool → M c (Unit {0})
  refresh stale =
      if stale then (do _ ← request_param_push c; (λ s. some (tt, s))) else (λ s. some (tt, s))

  -- The slot that the parameter cache predicts.
  unfoldable pub predicted_slot : Double → M c ℤ
  predicted_slot k s = elim (cached_pos a s.plin_cache k) [
    | none ↦ none
    | some slot ↦ some (slot, s)
  ]

  -- The snapshot first, then EDGE_FETCH_REQ.
  unfoldable pub fetch_from_edge : Double → M c Fetched
  fetch_from_edge k = do
    slot ← predicted_slot k
    (λ s. elim (rdma_snapshot_lookup s.conn.remote s.rdma_snapshot k slot) [
      | hit v ↦ some (record { success = true; out = v; stale = false }, s)
      | miss ↦ edge_fetch c k slot 0 s
      | unavailable ↦ edge_fetch c k slot 0 s
    ])

  -- Stage 3. With no Edge the result stays as it was constructed.
  unfoldable pub sibling_stage : Bool → Double → M c LookupResult
  sibling_stage false k = finish edge_plin not_found
  sibling_stage true k = do
    v ← fetch_from_edge k
    _ ← warm v.success k v.out
    _ ← refresh v.stale
    finish edge_plin (record { found = v.success; payload = v.out; stage = edge_plin })

  -- Stage 4.
  unfoldable pub remote_stage : Bool → Double → M c LookupResult
  remote_stage false k = finish cross_edge (record not_found { stage = cross_edge })
  remote_stage true k = do
    v ← cross_edge_fetch c k 0
    _ ← warm v.success k v.out
    finish cross_edge (record { found = v.success; payload = v.out; stage = cross_edge })

  -- The choice between stages 3 and 4 by the End that owns the key.
  unfoldable pub network_stages : Node t → ℤ → Double → M c LookupResult
  network_stages n tgt_end k =
      if leb_ℤ (pos 0) tgt_end && same_edge n.rm tgt_end n.id
      then sibling_stage n.edge k
      else remote_stage (leb_ℤ (pos 0) tgt_end && n.edge) k

  -- Stage 2 and what follows it.
  unfoldable pub remote_stages : Node t → ℤ → Double → M c LookupResult
  remote_stages n tgt_end k s = elim (c.find s.hot_cache k) [
    | some v ↦ finish hot_cache (record { found = true; payload = v; stage = hot_cache }) s
    | none ↦ network_stages n tgt_end k s
  ]

  unfoldable pub lookup : Node t → Double → M c LookupResult
  lookup n k =
      let tgt_end = locate_end n.rm k in
      if tgt_end ==ℤ n.id
      then finish local (local_result (t.find n.store k))
      else remote_stages n tgt_end k

-- The counters of `run_benchmark`: found results, and results by stage.
pub record Bench : Type 0 where
  pub found : ℕ
  pub stage1 : ℕ
  pub stage2 : ℕ
  pub stage3 : ℕ
  pub stage4 : ℕ

unfoldable pub count_stage : LookupStage → Bench → Bench
count_stage local b = record b { stage1 = b.stage1 + 1 }
count_stage hot_cache b = record b { stage2 = b.stage2 + 1 }
count_stage edge_plin b = record b { stage3 = b.stage3 + 1 }
count_stage cross_edge b = record b { stage4 = b.stage4 + 1 }

unfoldable pub count_result : LookupResult → Bench → Bench
count_result r b = count_stage r.stage (if r.found then record b { found = b.found + 1 } else b)

module _ (a : Arith) (c : CuckooMap) (t : BtreeMap) where
  -- The loop of `run_benchmark` over its keys.
  unfoldable pub run_benchmark : Node t → List Double → Bench → M c Bench
  run_benchmark n [] b s = some (b, s)
  run_benchmark n (k ∷ keys) b s = elim (lookup a c t n k s) [
    | none ↦ none
    | some (r, s') ↦ run_benchmark n keys (count_result r b) s'
  ]

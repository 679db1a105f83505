-- ===== src/End/Control.antt =====
-- `apply_edge_control_frame` of src/end/end_node.cpp.
use plin_cloud_edge_device_l.Common.{
  ℕ, zero, suc, ◌+◌, ◌*◌, ◌/◌, ◌&&◌, List, [], ◌∷◌, none, some, ltb, ◌==◌, if◌then◌else◌, length,
}
use plin_cloud_edge_device_l.Double.{Double}
use plin_cloud_edge_device_l.Bytes.{load_le}
use plin_cloud_edge_device_l.Proto.{Frame, plin_param_push, hot_update, rdma_snapshot_info}
use plin_cloud_edge_device_l.Plin.Stream.{ok, invalid_payload, indeterminate}
use plin_cloud_edge_device_l.Plin.Predict.{load_from_push}
use plin_cloud_edge_device_l.Snapshot.{info_of_bytes, snapshot_magic}
use plin_cloud_edge_device_l.Snapshot.Lookup.{EndRdmaSnapshot}
use plin_cloud_edge_device_l.Store.{CuckooMap, batch_upsert}
use plin_cloud_edge_device_l.End.{M}

-- The pairs of a HOT_UPDATE: the loop at index `i`, with `n` rounds left.
unfoldable pub update_pairs : ℕ → ℕ → List ℕ → List (Double × ℕ)
update_pairs zero i body = []
update_pairs (suc n) i body =
    (load_le 8 body (i * 16), load_le 8 body (i * 16 + 8)) ∷ update_pairs n (suc i) body

unfoldable pub snapshot_of : List ℕ → EndRdmaSnapshot
snapshot_of body =
    let info = info_of_bytes body in
    record {
      info = info;
      is_loaded =
          info.magic == snapshot_magic && (ltb 0 info.leaf_count && ltb 0 info.record_count);
    }

module _ (c : CuckooMap) where
  -- `ppc.load_from_push`; an exception of it is not caught.
  unfoldable pub apply_param_push : List ℕ → M c (Unit {0})
  apply_param_push body s = elim (load_from_push s.plin_cache body) [
    | ok ppc ↦ some (tt, record s { plin_cache = ppc })
    | invalid_payload ↦ none
    | indeterminate ↦ none
  ]

  unfoldable pub apply_edge_control_frame : Frame → M c (Unit {0})
  apply_edge_control_frame f s = elim f.kind [
    | plin_param_push ↦ apply_param_push f.body s
    | hot_update ↦
        let kv = update_pairs (length f.body / 16) 0 f.body in
        some (tt, record s { hot_cache = batch_upsert c s.hot_cache kv })
    | rdma_snapshot_info ↦
        if length f.body == 48
        then some (tt, record s { rdma_snapshot = snapshot_of f.body })
        else some (tt, s)
    | _ ↦ some (tt, s)
  ]

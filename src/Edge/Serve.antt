-- ===== src/Edge/Serve.antt =====
-- `handle_end` of src/edge/edge_server.cpp: one End's connection, from the push of the parameters to
-- the close.
use plin_cloud_edge_device_l.Common.{
  ℕ, ◌%◌, ◌^◌, Bool, true, false, not, ◌||◌, List, [], ◌∷◌, Option, none, some, ltb, leb,
  if◌then◌else◌, length, ◌==◌, ◌>>=◌,
}
use plin_cloud_edge_device_l.Common.Int.{ℤ, pos, negsuc, leb_ℤ}
use plin_cloud_edge_device_l.Double.{Double}
use plin_cloud_edge_device_l.Bytes.{load_le, read_u32}
use plin_cloud_edge_device_l.Proto.{
  Frame, MsgType, plin_param_push, edge_fetch_req, cross_edge_req, heartbeat, rdma_snapshot_info,
  Status, error, not_found,
}
use plin_cloud_edge_device_l.Proto
use plin_cloud_edge_device_l.Snapshot.{SnapshotInfo, snapshot_magic, info_bytes}
use plin_cloud_edge_device_l.Snapshot.Build.{EdgeRdmaSnapshot}
use plin_cloud_edge_device_l.Plin.Predict.{Arith}
use plin_cloud_edge_device_l.PlinIndex.Leaf.{OverflowTree}
use plin_cloud_edge_device_l.PlinIndex.Index
use plin_cloud_edge_device_l.PlinIndex.Index.{LearnedIndex}
use plin_cloud_edge_device_l.Rpc.{is_empty}
use plin_cloud_edge_device_l.Edge.{
  Runtime, end_conn, write, make_fetch_resp, register_end, unregister_transport, int_of_u32,
}

-- What a connection is: its number; whether its transport reads remotely; the address and key that
-- `register_memory` gives for the descriptors and for the records, `none` for false; what the padding of
-- a structure holds; and the exchange with the Cloud, `none` where connecting, writing or reading fails.
pub record Link : Type 0 where
  pub conn : ℕ
  pub supports_remote_read : Bool
  pub desc_mem : Option (ℕ × ℕ)
  pub record_mem : Option (ℕ × ℕ)
  pub padding : ℕ
  pub cloud_cross_fetch : Frame → Option Frame

unfoldable pub snapshot_info : EdgeRdmaSnapshot → ℕ × ℕ → ℕ × ℕ → SnapshotInfo
snapshot_info snap (desc_addr, desc_rkey) (record_addr, record_rkey) = record {
  magic = snapshot_magic;
  version = snap.version;
  desc_addr = desc_addr;
  desc_rkey = desc_rkey;
  leaf_count = length snap.descs % 2 ^ 32;
  record_addr = record_addr;
  record_rkey = record_rkey;
  record_count = length snap.records;
}

unfoldable pub make_rdma_snapshot_info : ℕ → SnapshotInfo → Frame
make_rdma_snapshot_info pad info = record { kind = rdma_snapshot_info; body = info_bytes pad info }

unfoldable pub send_registered :
    Link → EdgeRdmaSnapshot → Option (ℕ × ℕ) → Option (ℕ × ℕ) → Runtime → Runtime
send_registered link snap (some d) (some r) rt =
    (write (end_conn link.conn) (make_rdma_snapshot_info link.padding (snapshot_info snap d r))
      rt).1
send_registered link snap _ _ rt = rt

unfoldable pub send_rdma_snapshot_info_if_supported : Link → EdgeRdmaSnapshot → Runtime → Runtime
send_rdma_snapshot_info_if_supported link snap rt =
    if not link.supports_remote_read || (is_empty snap.descs || is_empty snap.records)
    then rt
    else send_registered link snap link.desc_mem link.record_mem rt

-- `int32_t` from its bits at an offset, -1 where the body is too short.
unfoldable pub slot_of : List ℕ → ℤ
slot_of body = if leb 12 (length body) then int_of_u32 (load_le 4 body 8) else negsuc 0

module _ (a : Arith) (o : OverflowTree) (idx : LearnedIndex o) where
  -- The answer of the index: the predicted leaf first, the whole index if that does not have the key. A wait
  -- for a lock of the index is `none`, here and below.
  unfoldable pub answer : Double → ℤ → Option (Bool × ℕ)
  answer key predicted_slot =
      if leb_ℤ (pos 0) predicted_slot
      then (do
        (ret, payload) ← Index.find_through_net a o idx key 0 predicted_slot
        if ret == 1 then some (true, payload) else Index.find a o idx key payload)
      else Index.find a o idx key 0

  unfoldable pub fetch_response : List ℕ → Option Frame
  fetch_response body = do
    (found, payload) ← answer (load_le 8 body 0) (slot_of body)
    some (make_fetch_resp (if found then Proto.Status.ok else not_found) payload)

unfoldable pub cross_response : Link → Frame → Frame
cross_response link req = elim (link.cloud_cross_fetch req) [
  | none ↦ make_fetch_resp error 0
  | some resp ↦ resp
]

module _ (a : Arith) (o : OverflowTree) (idx : LearnedIndex o) (param_frame : Frame)
    (snap : EdgeRdmaSnapshot) (link : Link) where
  -- The push of the parameters and of the snapshot; false if the frame cannot be written.
  unfoldable pub push_params : Runtime → Bool × Runtime
  push_params rt =
      let (ok, rt') = write (end_conn link.conn) param_frame rt in
      if ok then (true, send_rdma_snapshot_info_if_supported link snap rt') else (false, rt')

  unfoldable pub serve_heartbeat : List ℕ → Runtime → Bool × Runtime
  serve_heartbeat body rt = elim (read_u32 body 0) [
    | none ↦ (true, rt)
    | some end_id ↦ (true, register_end (int_of_u32 end_id) link.conn rt)
  ]

  -- One round of the loop; false is the `break`.
  unfoldable pub serve : Frame → Runtime → Option (Bool × Runtime)
  serve req rt = elim req.kind [
    | heartbeat ↦ some (serve_heartbeat req.body rt)
    | plin_param_push ↦ some (if is_empty req.body then push_params rt else (false, rt))
    | cross_edge_req ↦ some (write (end_conn link.conn) (cross_response link req) rt)
    | edge_fetch_req ↦
        if ltb (length req.body) 8
        then some (false, rt)
        else (do resp ← fetch_response a o idx req.body; some (write (end_conn link.conn) resp rt))
    | _ ↦ some (false, rt)
  ]

  -- The loop over the frames that arrive before the connection ends.
  unfoldable pub serve_loop : List Frame → Runtime → Option Runtime
  serve_loop [] rt = some rt
  serve_loop (req ∷ reqs) rt = elim (serve req rt) [
    | none ↦ none
    | some (true, rt') ↦ serve_loop reqs rt'
    | some (false, rt') ↦ some rt'
  ]

  unfoldable pub handle_end : List Frame → Runtime → Option Runtime
  handle_end reqs rt =
      let (ok, rt') = write (end_conn link.conn) param_frame rt in
      if ok
      then (do
        served ← serve_loop reqs (send_rdma_snapshot_info_if_supported link snap rt')
        some (unregister_transport link.conn served))
      else some rt'

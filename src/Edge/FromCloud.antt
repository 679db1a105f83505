-- ===== src/Edge/FromCloud.antt =====
-- The control connection of an Edge to the Cloud: `handle_cloud_hot_update`, `handle_cloud_cross_req`
-- and `cloud_receiver_loop` of src/edge/edge_server.cpp.
use plin_cloud_edge_device_l.Common.{
  ℕ, List, [], ◌∷◌, Option, none, some, if◌then◌else◌, drop, ◌>>=◌,
}
use plin_cloud_edge_device_l.Double.{Double}
use plin_cloud_edge_device_l.Bytes.{read_u32, read_double}
use plin_cloud_edge_device_l.Plin.Predict.{Arith}
use plin_cloud_edge_device_l.PlinIndex.Leaf.{OverflowTree}
use plin_cloud_edge_device_l.PlinIndex.Index
use plin_cloud_edge_device_l.PlinIndex.Index.{LearnedIndex}
use plin_cloud_edge_device_l.Proto.{
  Frame, MsgType, hot_update, cross_edge_req, Status, error, not_found,
}
use plin_cloud_edge_device_l.Proto
use plin_cloud_edge_device_l.Edge.{Runtime, cloud, write, make_fetch_resp, send_to_end, int_of_u32}

-- The body behind the number of the End.
unfoldable pub to_end : List ℕ → Frame
to_end body = record { kind = hot_update; body = drop 4 body }

unfoldable pub handle_cloud_hot_update : Frame → Runtime → Runtime
handle_cloud_hot_update f rt = elim (read_u32 f.body 0) [
  | none ↦ rt
  | some target ↦ (send_to_end (int_of_u32 target) (to_end f.body) rt).1
]

-- A wait for a lock of the index is `none`.
module _ (a : Arith) (o : OverflowTree) (idx : LearnedIndex o) where
  unfoldable pub cross_answer : Double → Option Frame
  cross_answer key = do
    (found, payload) ← Index.find a o idx key 0
    some (make_fetch_resp (if found then Proto.Status.ok else not_found) payload)

  unfoldable pub handle_cloud_cross_req : Frame → Runtime → Option Runtime
  handle_cloud_cross_req req rt = elim (read_double req.body 8) [
    | none ↦ some (write cloud (make_fetch_resp error 0) rt).1
    | some key ↦ do resp ← cross_answer key; some (write cloud resp rt).1
  ]

  unfoldable pub from_cloud : Frame → Runtime → Option Runtime
  from_cloud f rt = elim f.kind [
    | hot_update ↦ some (handle_cloud_hot_update f rt)
    | cross_edge_req ↦ handle_cloud_cross_req f rt
    | _ ↦ some rt
  ]

  unfoldable pub cloud_receiver_loop : List Frame → Runtime → Option Runtime
  cloud_receiver_loop [] rt = some rt
  cloud_receiver_loop (f ∷ fs) rt = elim (from_cloud f rt) [
    | none ↦ none
    | some rt' ↦ cloud_receiver_loop fs rt'
  ]

-- ===== src/Proto.antt =====
-- src/common/proto.h and the frame of src/common/rpc.h.
use plin_cloud_edge_device_l.Common.{ℕ, ◌≡◌, ◌<◌, List, ◌==◌, if◌then◌else◌}

-- `unknown` is a byte that no enumerator names: `static_cast<MsgType>` lets each one through.
pub data MsgType : Type 0 where
  query_req query_resp edge_fetch_req edge_fetch_resp plin_param_push hot_update : MsgType
  lstm_train_trigger cross_edge_req heartbeat heartbeat_ack rdma_snapshot_info : MsgType
  unknown : ℕ → MsgType

unfoldable pub code : MsgType → ℕ
code query_req = 1
code query_resp = 2
code edge_fetch_req = 3
code edge_fetch_resp = 4
code plin_param_push = 5
code hot_update = 6
code lstm_train_trigger = 7
code cross_edge_req = 8
code heartbeat = 9
code heartbeat_ack = 10
code rdma_snapshot_info = 11
code (unknown b) = b

-- `static_cast<proto::MsgType>(type_byte)`.
unfoldable pub msg_type : ℕ → MsgType
msg_type b =
    if b == 1
    then query_req
    else if b == 2
    then query_resp
    else if b == 3
    then edge_fetch_req
    else if b == 4
    then edge_fetch_resp
    else if b == 5
    then plin_param_push
    else if b == 6
    then hot_update
    else if b == 7
    then lstm_train_trigger
    else if b == 8
    then cross_edge_req
    else if b == 9
    then heartbeat
    else if b == 10
    then heartbeat_ack
    else if b == 11
    then rdma_snapshot_info
    else unknown b

-- A message type as the code makes it: no named one is written as `unknown`.
abbrev pub IsMsgType : MsgType → Type 0
IsMsgType t = (msg_type (code t) ≡ t) × (code t < 256)

pub data Status : Type 0 where
  ok not_found param_stale not_implemented error : Status

unfoldable pub status_code : Status → ℕ
status_code ok = 0
status_code not_found = 1
status_code param_stale = 2
status_code not_implemented = 3
status_code error = 255

pub record Frame : Type 0 where
  pub kind : MsgType
  pub body : List ℕ

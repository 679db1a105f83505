-- ===== src/Edge/Announced.antt =====
-- A snapshot that an Edge announces is the one that its End reads: `make_rdma_snapshot_info` of
-- src/edge/edge_server.cpp and RDMA_SNAPSHOT_INFO in src/end/end_node.cpp.
use plin_cloud_edge_device_l.Common.{ℕ, true, ◌<◌, ◌≡◌, refl, some, ◌==◌, ==_iff, lt→ltb}
use plin_cloud_edge_device_l.Snapshot.{SnapshotInfo, snapshot_magic}
use plin_cloud_edge_device_l.Snapshot.RoundTrip.{
  IsInfo, info_of_bytes-info_bytes, length-info_bytes,
}
use plin_cloud_edge_device_l.Store.{CuckooMap}
use plin_cloud_edge_device_l.End.{State}
use plin_cloud_edge_device_l.End.Control.{snapshot_of, apply_edge_control_frame}
use plin_cloud_edge_device_l.Edge.Serve.{make_rdma_snapshot_info}

-- The frame that announces a snapshot with leaves and records makes the End use exactly its description,
-- all addresses, keys and counts as the Edge put them in, whatever the padding holds; and it changes
-- nothing else.
pub apply_edge_control_frame-make_rdma_snapshot_info :
    (c : CuckooMap) (pad : ℕ) (i : SnapshotInfo) (s : State c)
    → IsInfo i
    → i.magic ≡ snapshot_magic
    → 0 < i.leaf_count
    → 0 < i.record_count
    → apply_edge_control_frame c (make_rdma_snapshot_info pad i) s
      ≡ some (tt, record s { rdma_snapshot = record { info = i; is_loaded = true } })
unfolding apply_edge_control_frame make_rdma_snapshot_info snapshot_of
apply_edge_control_frame-make_rdma_snapshot_info c pad i s w m leaves records =
    let same : (i.magic == snapshot_magic) ≡ true = (==_iff i.magic snapshot_magic).1 m in
    rw
      (
        length-info_bytes pad i,
        info_of_bytes-info_bytes pad i w,
        same,
        lt→ltb 0 i.leaf_count leaves,
        lt→ltb 0 i.record_count records,
      )
      refl

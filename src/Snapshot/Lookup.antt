-- ===== src/Snapshot/Lookup.antt =====
-- `rdma_snapshot_lookup` of src/end/end_node.cpp.
use plin_cloud_edge_device_l.Common.{
  ℕ, zero, suc, ◌+◌, ◌-◌, ◌*◌, ◌%◌, ◌^◌, Bool, not, ◌||◌, List, [], ◌∷◌, Option, none, some, ltb,
  leb, ◌==◌, if◌then◌else◌, take, drop,
}
use plin_cloud_edge_device_l.Common.Int.{ℤ, pos, pos_part, ltb_ℤ}
use plin_cloud_edge_device_l.Double.{Double, double_eq}
use plin_cloud_edge_device_l.Snapshot.{
  SnapshotInfo, LeafDescriptor, KeyPayloadRecord, snapshot_magic, desc_of_bytes, record_of_bytes,
}

pub record EndRdmaSnapshot : Type 0 where
  pub info : SnapshotInfo
  pub is_loaded : Bool

-- `RDMALookupStatus`, with the payload of a hit.
pub data RdmaLookup : Type 0 where
  hit : ℕ → RdmaLookup
  miss unavailable : RdmaLookup

-- The remote reads of a transport: `supports_remote_read`, and `read_remote` at an address, a key and a
-- size, where `none` is the result false.
pub record Remote : Type 0 where
  pub supports_remote_read : Bool
  pub read_remote : ℕ → ℕ → ℕ → Option (List ℕ)

-- The array of `n` records in the buffer that was read.
unfoldable pub records_of_bytes : ℕ → List ℕ → List KeyPayloadRecord
records_of_bytes zero b = []
records_of_bytes (suc n) b = record_of_bytes (take 16 b) ∷ records_of_bytes n (drop 16 b)

-- The first record with the key.
unfoldable pub scan : List KeyPayloadRecord → Double → RdmaLookup
scan [] key = miss
scan (rec ∷ records) key = if double_eq rec.key key then hit rec.payload else scan records key

unfoldable pub read_records : Remote → SnapshotInfo → LeafDescriptor → Double → RdmaLookup
read_records edge info desc key =
    let record_addr = (info.record_addr + desc.offset * 16) % 2 ^ 64 in
    elim (edge.read_remote record_addr info.record_rkey (desc.count * 16)) [
      | none ↦ unavailable
      | some b ↦ scan (records_of_bytes desc.count b) key
    ]

unfoldable pub check_desc : Remote → SnapshotInfo → LeafDescriptor → Double → RdmaLookup
check_desc edge info desc key =
    if not (desc.version == info.version) || desc.count == 0
    then unavailable
    else if ltb info.record_count ((desc.offset + desc.count) % 2 ^ 64)
    then unavailable
    else read_records edge info desc key

unfoldable pub read_desc : Remote → SnapshotInfo → Double → ℕ → RdmaLookup
read_desc edge info key predicted_slot =
    let leaf_id =
      if leb info.leaf_count predicted_slot then info.leaf_count - 1 else predicted_slot in
    let desc_addr = (info.desc_addr + leaf_id * 24) % 2 ^ 64 in
    elim (edge.read_remote desc_addr info.desc_rkey 24) [
      | none ↦ unavailable
      | some b ↦ check_desc edge info (desc_of_bytes b) key
    ]

unfoldable pub rdma_snapshot_lookup : Remote → EndRdmaSnapshot → Double → ℤ → RdmaLookup
rdma_snapshot_lookup edge snapshot key predicted_slot =
    if not snapshot.is_loaded || not edge.supports_remote_read
    then unavailable
    else if not (snapshot.info.magic == snapshot_magic)
        || (snapshot.info.leaf_count == 0 || ltb_ℤ predicted_slot (pos 0))
    then unavailable
    else read_desc edge snapshot.info key (pos_part predicted_slot)

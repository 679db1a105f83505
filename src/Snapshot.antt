-- ===== src/Snapshot.antt =====
-- src/common/rdma_snapshot.h: what an Edge publishes for the RDMA reads of its Ends. The layouts are
-- those of the x86-64 ABI: 48 bytes with four of padding, 24 and 16 bytes.
pub mod Build
pub mod Lookup
pub mod RoundTrip
pub mod Counted
pub mod Filled
pub mod Grouped
pub mod Memory
pub mod Served
use plin_cloud_edge_device_l.Common.{ℕ, List, ◌++◌}
use plin_cloud_edge_device_l.Double.{Double}
use plin_cloud_edge_device_l.Bytes.{le_bytes, load_le}

abbrev pub snapshot_magic : ℕ
snapshot_magic = 0x504c_5244

abbrev pub snapshot_version : ℕ
snapshot_version = 1

pub record SnapshotInfo : Type 0 where
  pub magic : ℕ
  pub version : ℕ
  pub desc_addr : ℕ
  pub desc_rkey : ℕ
  pub leaf_count : ℕ
  pub record_addr : ℕ
  pub record_rkey : ℕ
  pub record_count : ℕ

pub record LeafDescriptor : Type 0 where
  pub offset : ℕ
  pub count : ℕ
  pub version : ℕ
  pub first_key : Double

pub record KeyPayloadRecord : Type 0 where
  pub key : Double
  pub payload : ℕ

-- The bytes of the structures in memory; `pad` is what the padding holds.
unfoldable pub info_bytes : ℕ → SnapshotInfo → List ℕ
info_bytes pad i =
    le_bytes 4 i.magic
    ++ (le_bytes 4 i.version
        ++ (le_bytes 8 i.desc_addr
            ++ (le_bytes 4 i.desc_rkey
                ++ (le_bytes 4 i.leaf_count
                    ++ (le_bytes 8 i.record_addr
                        ++ (le_bytes 4 i.record_rkey
                            ++ (le_bytes 4 pad ++ le_bytes 8 i.record_count)))))))

unfoldable pub info_of_bytes : List ℕ → SnapshotInfo
info_of_bytes b = record {
  magic = load_le 4 b 0;
  version = load_le 4 b 4;
  desc_addr = load_le 8 b 8;
  desc_rkey = load_le 4 b 16;
  leaf_count = load_le 4 b 20;
  record_addr = load_le 8 b 24;
  record_rkey = load_le 4 b 32;
  record_count = load_le 8 b 40;
}

unfoldable pub desc_of_bytes : List ℕ → LeafDescriptor
desc_of_bytes b = record {
  offset = load_le 8 b 0;
  count = load_le 4 b 8;
  version = load_le 4 b 12;
  first_key = load_le 8 b 16;
}

unfoldable pub record_of_bytes : List ℕ → KeyPayloadRecord
record_of_bytes b = record { key = load_le 8 b 0; payload = load_le 8 b 8 }

-- ===== src/Snapshot/Build.antt =====
-- `build_rdma_snapshot` of src/edge/edge_server.cpp: the records of a dataset, grouped by the leaf that
-- the model predicts for their keys. A write out of range changes nothing here.
use plin_cloud_edge_device_l.Common.{
  ℕ, ◌+◌, ◌-◌, ◌%◌, ◌^◌, List, [], ◌∷◌, map, none, some, leb, if◌then◌else◌, length, get_elem?, set,
  replicate,
}
use plin_cloud_edge_device_l.Common.Int.{ℤ, pos_part}
use plin_cloud_edge_device_l.Double.{Double}
use plin_cloud_edge_device_l.Snapshot.{LeafDescriptor, KeyPayloadRecord, snapshot_version}

pub record EdgeRdmaSnapshot : Type 0 where
  pub descs : List LeafDescriptor
  pub records : List KeyPayloadRecord
  pub version : ℕ

abbrev pub no_record : KeyPayloadRecord
no_record = record { key = 0; payload = 0 }

-- The descriptors after the first loop: one for each row of the table of leaves.
unfoldable pub init_descs : List Double → List LeafDescriptor
init_descs = map (λ k. record { offset = 0; count = 0; version = snapshot_version; first_key = k })

-- `predicted < 0 ? 0 : predicted`, and at most the last leaf.
unfoldable pub clamp_leaf : ℤ → ℕ → ℕ
clamp_leaf predicted leaves =
    if leb leaves (pos_part predicted) then leaves - 1 else pos_part predicted

abbrev pub bump : LeafDescriptor → LeafDescriptor
bump d = record d { count = (d.count + 1) % 2 ^ 32 }

-- `++snap.descs[leaf].count`, over the leaf of each key.
unfoldable pub count_leaves : List ℕ → List LeafDescriptor → List LeafDescriptor
count_leaves [] descs = descs
count_leaves (leaf ∷ leaves) descs = elim (get_elem? descs leaf) [
  | none ↦ count_leaves leaves descs
  | some d ↦ count_leaves leaves (set descs leaf (bump d))
]

-- The running sum of the counts; the count becomes the cursor of the next loop.
unfoldable pub set_offsets : ℕ → List LeafDescriptor → List LeafDescriptor
set_offsets offset [] = []
set_offsets offset (d ∷ ds) =
    record d { offset = offset; count = 0 } ∷ set_offsets ((offset + d.count) % 2 ^ 64) ds

-- Each record goes to the place of its leaf's cursor.
unfoldable pub fill :
    List (ℕ × KeyPayloadRecord)
    → List LeafDescriptor
    → List KeyPayloadRecord
    → List LeafDescriptor × List KeyPayloadRecord
fill [] descs records = (descs, records)
fill ((leaf, r) ∷ rows) descs records = elim (get_elem? descs leaf) [
  | none ↦ fill rows descs records
  | some d ↦ fill rows (set descs leaf (bump d)) (set records ((d.offset + d.count) % 2 ^ 64) r)
]

-- The rows of a dataset with the leaf of each.
abbrev pub rows_of : (Double → ℤ) → ℕ → List KeyPayloadRecord → List (ℕ × KeyPayloadRecord)
rows_of predict leaves = map (λ r. (clamp_leaf (predict r.key) leaves, r))

unfoldable pub grouped : List LeafDescriptor → List (ℕ × KeyPayloadRecord) → EdgeRdmaSnapshot
grouped descs rows =
    let counted = count_leaves (map (λ r. r.0) rows) descs in
    let (descs', records') =
      fill rows (set_offsets 0 counted) (replicate (length rows) no_record) in
    record { descs = descs'; records = records'; version = snapshot_version }

-- `predict` is `idx.meta_table.predict_pos`, `table` the first keys of the leaves, `ds` the dataset.
unfoldable pub build_rdma_snapshot :
    (Double → ℤ) → List Double → List KeyPayloadRecord → EdgeRdmaSnapshot
build_rdma_snapshot predict [] ds = record { descs = []; records = []; version = snapshot_version }
build_rdma_snapshot predict (k ∷ table) [] = record {
  descs = map (λ x. record { offset = 0; count = 0; version = 1; first_key = 0 }) (k ∷ table);
  records = [];
  version = snapshot_version;
}
build_rdma_snapshot predict (k ∷ table) (r ∷ ds) =
    grouped (init_descs (k ∷ table)) (rows_of predict (length (k ∷ table)) (r ∷ ds))

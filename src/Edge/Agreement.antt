-- ===== src/Edge/Agreement.antt =====
-- What an End reads of the snapshot that an Edge has built: `build_rdma_snapshot` of
-- src/edge/edge_server.cpp, `rdma_snapshot_lookup` of src/end/end_node.cpp, and the memory between them.
use plin_cloud_edge_device_l.Common.{
  ℕ, ◌-◌, ◌%◌, ◌^◌, ◌<◌, ◌≡◌, refl, ◌∙◌, inl, inr, true, false, ◌||◌, List, ◌∷◌, arith, leb, ◌==◌,
  if◌then◌else◌, length, All, Bool-cases, length-map,
}
use plin_cloud_edge_device_l.Common.Int.{ℤ, pos, pos_part, ltb_ℤ}
use plin_cloud_edge_device_l.Double.{Double, double_eq}
use plin_cloud_edge_device_l.Snapshot.{KeyPayloadRecord, snapshot_magic, SnapshotInfo}
use plin_cloud_edge_device_l.Snapshot.Build.{
  EdgeRdmaSnapshot, clamp_leaf, rows_of, grouped, build_rdma_snapshot,
}
use plin_cloud_edge_device_l.Snapshot.Lookup.{
  Remote, unavailable, scan, read_desc, rdma_snapshot_lookup,
}
use plin_cloud_edge_device_l.Snapshot.Filled.{Rows, records_in}
use plin_cloud_edge_device_l.Snapshot.Grouped.{result, length-result, result-Describes}
use plin_cloud_edge_device_l.Snapshot.Memory.{desc_bytes, record_bytes, array_bytes, IsRecord}
use plin_cloud_edge_device_l.Snapshot.Served.{
  Registered, leaf_lookup, All_records, scan-records_in, read_desc_lem,
}
use plin_cloud_edge_device_l.Edge.Serve.{snapshot_info}

All_records_of :
    (i leaves : ℕ) (predict : Double → ℤ) (ds : List KeyPayloadRecord)
    → All IsRecord ds
    → All IsRecord (records_in i (rows_of predict leaves ds))
All_records_of i leaves predict ds w =
    All_records IsRecord i (λ r. clamp_leaf (predict r.key) leaves) ds w

module _ (edge : Remote) (predict : Double → ℤ) (k : Double) (ks : List Double)
    (r : KeyPayloadRecord) (rs : List KeyPayloadRecord) (d_mem r_mem : ℕ × ℕ) where
  abbrev table : List Double
  table = k ∷ ks

  abbrev ds : List KeyPayloadRecord
  ds = r ∷ rs

  abbrev rows : Rows
  rows = rows_of predict (length table) ds

  abbrev snap : EdgeRdmaSnapshot
  snap = build_rdma_snapshot predict table ds

  abbrev info : SnapshotInfo
  info = snapshot_info snap d_mem r_mem

  few_rows : length ds < 2 ^ 32 → length rows < 2 ^ 32
  few_rows few = let same : length rows ≡ length ds = length-map ds _ in omega (arith, same, few)

  leaf_count_lem : length table < 2 ^ 32 → length ds < 2 ^ 32 → info.leaf_count ≡ length table
  unfolding snapshot_info build_rdma_snapshot grouped
  leaf_count_lem leaves few = omega (arith, (length-result table rows (few_rows few)).0, leaves)

  read_snapshot_lem :
      (key : Double) (slot : ℕ)
      → length table < 2 ^ 32
      → length ds < 2 ^ 32
      → All IsRecord ds
      → Registered edge d_mem (array_bytes desc_bytes snap.descs)
      → Registered edge r_mem (array_bytes record_bytes snap.records)
      → read_desc edge info key slot
        ≡ leaf_lookup (records_in (clamp_leaf (pos slot) (length table)) rows) key
  unfolding snapshot_info build_rdma_snapshot grouped clamp_leaf
  read_snapshot_lem key slot leaves few w descs records =
      let i = clamp_leaf (pos slot) (length table) in
      let i_lt : i < length table = ground arith in
      let h = few_rows few in
      let (desc_length, record_length) = length-result table rows h in
      let x = result-Describes table rows h i i_lt in
      let part = records_in i rows in
      let d = x.desc in
      let leaf_count : length (result table rows h).0 % 2 ^ 32 ≡ length table =
        omega (arith, desc_length, leaves) in
      let leaf : (if leb (length (result table rows h).0 % 2 ^ 32) slot
            then length (result table rows h).0 % 2 ^ 32 - 1
            else slot)
          ≡ i =
        rw leaf_count refl in
      read_desc_lem edge info (result table rows h).0 (result table rows h).1 part key slot i x.desc
        descs records leaf x.at x.version (unfold snapshot_info in omega arith) x.count x.room
        (omega (arith, record_length, h)) refl x.records
        (All_records_of i (length table) predict ds w)

  -- On a snapshot that the Edge has built of a dataset of fewer than 2 ^ 32 rows and registered, an End that
  -- can read remote memory finds what a search of the whole dataset finds, hit or miss, when the slot that it
  -- predicts is not negative and not that of a leaf without rows: then the lookup is unavailable. The rows
  -- with the key must be of the leaf of that slot, in the model of the Edge.
  pub rdma_snapshot_lookup-build_rdma_snapshot :
      (key : Double) (slot : ℤ)
      → edge.supports_remote_read ≡ true
      → length table < 2 ^ 32
      → length ds < 2 ^ 32
      → All IsRecord ds
      → Registered edge d_mem (array_bytes desc_bytes snap.descs)
      → Registered edge r_mem (array_bytes record_bytes snap.records)
      → All
          (λ x.
            double_eq x.key key ≡ true
            → clamp_leaf (predict x.key) (length table) ≡ clamp_leaf slot (length table))
          ds
      → rdma_snapshot_lookup edge
          (record { info = snapshot_info snap d_mem r_mem; is_loaded = true })
          key
          slot
        ≡ (if ltb_ℤ slot (pos 0) || length (records_in (clamp_leaf slot (length table)) rows) == 0
            then unavailable
            else scan ds key)
  unfolding rdma_snapshot_lookup
  rdma_snapshot_lookup-build_rdma_snapshot key slot supported leaves few w descs records one_leaf =
      let i = clamp_leaf slot (length table) in
      let found : read_desc edge info key (pos_part slot) ≡ leaf_lookup (records_in i rows) key =
        read_snapshot_lem key (pos_part slot) leaves few w descs records
        ∙ unfold clamp_leaf in refl in
      let same : scan (records_in i rows) key ≡ scan ds key =
        scan-records_in i (λ x. clamp_leaf (predict x.key) (length table)) ds key one_leaf in
      let magic : (info.magic == snapshot_magic) ≡ true = unfold snapshot_info in refl in
      let leaf_count : (info.leaf_count == 0) ≡ false = ground (arith, leaf_count_lem leaves few) in
      elim (Bool-cases (ltb_ℤ slot (pos 0))) [
        | inl t ↦ rw (supported, magic, leaf_count, t) refl
        | inr n ↦ rw (found, supported, magic, leaf_count, n) (unfold leaf_lookup in rw same refl)
      ]

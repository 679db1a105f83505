-- ===== src/Edge/AgreementTests.antt =====
-- Three rows in two leaves, in the memory of an Edge.
use plin_cloud_edge_device_l.Common.{
  ◌+◌, ◌-◌, ◌%◌, ◌^◌, ◌≡◌, refl, ap, ◌||◌, List, [], ◌∷◌, some, arith, ltb, ◌==◌, if◌then◌else◌,
  length, take, drop, true,
}
use plin_cloud_edge_device_l.Common.Int.{ℤ, pos, ltb_ℤ}
use plin_cloud_edge_device_l.Double.{Double, is_nan, rank, double_eq}
use plin_cloud_edge_device_l.Snapshot.{KeyPayloadRecord}
use plin_cloud_edge_device_l.Snapshot.Build.{
  EdgeRdmaSnapshot, clamp_leaf, rows_of, build_rdma_snapshot, grouped, init_descs, count_leaves,
  set_offsets, fill,
}
use plin_cloud_edge_device_l.Snapshot.Lookup.{Remote, unavailable, scan, rdma_snapshot_lookup}
use plin_cloud_edge_device_l.Snapshot.Filled.{records_in}
use plin_cloud_edge_device_l.Snapshot.Memory.{
  desc_bytes, record_bytes, array_bytes, length-array_desc_bytes, length-array_record_bytes,
}
use plin_cloud_edge_device_l.Edge.Serve.{snapshot_info}
use plin_cloud_edge_device_l.Snapshot.Served.{Registered}
use plin_cloud_edge_device_l.Edge.Agreement.{rdma_snapshot_lookup-build_rdma_snapshot}

abbrev first_row : KeyPayloadRecord
first_row = record { key = 30; payload = 3 }

abbrev more_rows : List KeyPayloadRecord
more_rows = record { key = 10; payload = 1 } ∷ record { key = 20; payload = 2 } ∷ []

abbrev predict : Double → ℤ
predict k = pos (if ltb k 25 then 0 else 1)

abbrev snap : EdgeRdmaSnapshot
snap = build_rdma_snapshot predict (5 ∷ 25 ∷ []) (first_row ∷ more_rows)

-- The two regions, from 4096 and from 8192 on, under the keys 1 and 2.
abbrev memory : Remote
memory = record {
  supports_remote_read = true;
  read_remote = λ addr rkey size.
      if rkey == 1
      then some (take size (drop (addr - 4096) (array_bytes desc_bytes snap.descs)))
      else some (take size (drop (addr - 8192) (array_bytes record_bytes snap.records)));
}

descs-Registered : Registered memory (4096, 1) (array_bytes desc_bytes snap.descs)
unfolding build_rdma_snapshot grouped init_descs count_leaves set_offsets fill clamp_leaf
descs-Registered off size h =
    let e : (4096 + off) % 2 ^ 64 - 4096 ≡ off =
      omega (arith, h, length-array_desc_bytes snap.descs) in
    ap (λ n. some (take size (drop n (array_bytes desc_bytes snap.descs)))) e

records-Registered : Registered memory (8192, 2) (array_bytes record_bytes snap.records)
unfolding build_rdma_snapshot grouped init_descs count_leaves set_offsets fill clamp_leaf
records-Registered off size h =
    let e : (8192 + off) % 2 ^ 64 - 8192 ≡ off =
      omega (arith, h, length-array_record_bytes snap.records) in
    ap (λ n. some (take size (drop n (array_bytes record_bytes snap.records)))) e

rdma_snapshot_lookup-build_rdma_snapshot_example :
    rdma_snapshot_lookup memory
      (record { info = snapshot_info snap (4096, 1) (8192, 2); is_loaded = true })
      20
      (pos 0)
    ≡ (if ltb_ℤ (pos 0) (pos 0)
          || length (records_in (clamp_leaf (pos 0) 2) (rows_of predict 2 (first_row ∷ more_rows)))
            == 0
        then unavailable
        else scan (first_row ∷ more_rows) 20)
rdma_snapshot_lookup-build_rdma_snapshot_example =
    rdma_snapshot_lookup-build_rdma_snapshot memory predict 5 (25 ∷ []) first_row more_rows
      (4096, 1) (8192, 2) 20 (pos 0) refl (omega arith) (omega arith)
      (
        record { key = omega arith; payload = omega arith },
        (
          record { key = omega arith; payload = omega arith },
          (record { key = omega arith; payload = omega arith }, tt),
        ),
      )
      descs-Registered records-Registered
      (unfold double_eq is_nan rank clamp_leaf in (λ e. cc e, (λ e. cc e, (λ e. refl, tt))))

-- ===== src/Snapshot/Served.antt =====
-- `rdma_snapshot_lookup` of src/end/end_node.cpp over memory that an Edge has registered.
use plin_cloud_edge_device_l.Common.{
  ℕ, ◌+◌, ◌*◌, ◌-◌, ◌%◌, ◌^◌, ◌≤◌, ◌<◌, ◌≡◌, refl, sym, ap, ◌∙◌, inl, inr, true, false, List, [],
  ◌∷◌, map, some, arith, ltb, leb, ◌==◌, if◌then◌else◌, length, get_elem?, take, drop, All,
  Bool-cases, ==_iff, lt-of_get_elem?,
}
use plin_cloud_edge_device_l.Double.{Double, double_eq}
use plin_cloud_edge_device_l.Snapshot.{
  LeafDescriptor, KeyPayloadRecord, desc_of_bytes, SnapshotInfo,
}
use plin_cloud_edge_device_l.Snapshot.Lookup.{
  Remote, records_of_bytes, RdmaLookup, unavailable, scan, read_records, check_desc, read_desc,
}
use plin_cloud_edge_device_l.Snapshot.Filled.{records_in}
use plin_cloud_edge_device_l.Snapshot.Memory.{
  desc_bytes, record_bytes, array_bytes, IsRecord, desc_of_bytes-desc_bytes, desc_bytes_at,
  length-array_desc_bytes, length-array_record_bytes, records_at,
}

-- Memory that is registered under a key: each read within it succeeds, with the bytes there.
abbrev pub Registered : Remote → ℕ × ℕ → List ℕ → Type 0
Registered edge (addr, rkey) bytes =
    (off size : ℕ)
    → off + size ≤ length bytes
    → edge.read_remote ((addr + off) % 2 ^ 64) rkey size ≡ some (take size (drop off bytes))

-- A search of the leaf's records, which are all that the leaf has; a leaf without records is unknown.
unfoldable pub leaf_lookup : List KeyPayloadRecord → Double → RdmaLookup
leaf_lookup records key = if length records == 0 then unavailable else scan records key

pub All_records :
    (P : KeyPayloadRecord → Type 0) (i : ℕ) (f : KeyPayloadRecord → ℕ) (ds : List KeyPayloadRecord)
    → All P ds
    → All P (records_in i (map (λ r. (f r, r)) ds))
All_records P i f [] h = tt
All_records P i f (r ∷ ds) h = elim (Bool-cases (f r == i)) [
  | inl t ↦ rw t (h.0, All_records P i f ds h.1)
  | inr n ↦ rw n (All_records P i f ds h.1)
]

-- The records with the key are all of one leaf: a search of that leaf is one of the dataset.
pub scan-records_in :
    (i : ℕ) (f : KeyPayloadRecord → ℕ) (ds : List KeyPayloadRecord) (key : Double)
    → All (λ r. double_eq r.key key ≡ true → f r ≡ i) ds
    → scan (records_in i (map (λ r. (f r, r)) ds)) key ≡ scan ds key
unfolding scan
scan-records_in i f [] key h = refl
scan-records_in i f (r ∷ ds) key h = elim (Bool-cases (double_eq r.key key)) [
  | inl t ↦ rw ((==_iff (f r) i).1 (h.0 t), t) refl
  | inr n ↦ elim (Bool-cases (f r == i)) [
    | inl t ↦ rw (t, n, scan) (scan-records_in i f ds key h.1)
    | inr o ↦ rw (o, n) (scan-records_in i f ds key h.1)
  ]
]

-- What the lookup does with the descriptor that it has read.
check_desc_lem :
    (edge : Remote) (info : SnapshotInfo) (d : LeafDescriptor) (key : Double) (b : List ℕ)
    (part : List KeyPayloadRecord)
    → d.version ≡ info.version
    → d.count ≡ length part
    → d.offset + d.count ≤ info.record_count
    → d.offset + d.count < 2 ^ 64
    → edge.read_remote ((info.record_addr + d.offset * 16) % 2 ^ 64) info.record_rkey (d.count * 16)
      ≡ some b
    → records_of_bytes d.count b ≡ part
    → check_desc edge info d key ≡ leaf_lookup part key
unfolding check_desc leaf_lookup
check_desc_lem edge info d key b part version count room small read same =
    let current : (d.version == info.version) ≡ true = (==_iff d.version info.version).1 version in
    let within : ltb info.record_count ((d.offset + d.count) % 2 ^ 64) ≡ false =
      ground (arith, room, small) in
    let found : read_records edge info d key ≡ scan part key =
      unfold read_records in rw (read, same, read_records) refl in
    elim (Bool-cases (d.count == 0)) [
      | inl t ↦
          rw (current, t, (==_iff (length part) 0).1 (sym count ∙ (==_iff d.count 0).0 t)) refl
      | inr n ↦ rw (current, n, within, (ap (λ m. m == 0) (sym count) ∙ n)) found
    ]

-- What the lookup makes of a snapshot in registered memory.
pub read_desc_lem :
    (edge : Remote) (info : SnapshotInfo) (descs : List LeafDescriptor)
    (records part : List KeyPayloadRecord) (key : Double) (slot i : ℕ) (d : LeafDescriptor)
    → Registered edge (info.desc_addr, info.desc_rkey) (array_bytes desc_bytes descs)
    → Registered edge (info.record_addr, info.record_rkey) (array_bytes record_bytes records)
    → (if leb info.leaf_count slot then info.leaf_count - 1 else slot) ≡ i
    → get_elem? descs i ≡ some d
    → d.version ≡ info.version
    → info.version < 2 ^ 32
    → d.count ≡ length part
    → d.offset + d.count ≤ length records
    → length records < 2 ^ 32
    → info.record_count ≡ length records
    → take d.count (drop d.offset records) ≡ part
    → All IsRecord part
    → read_desc edge info key slot ≡ leaf_lookup part key
unfolding read_desc
read_desc_lem edge info descs records part key slot i d descs_there records_there leaf at version
      small count room few all here w =
    let (offset', count', version') = desc_of_bytes-desc_bytes d (record {
      offset = omega (arith, room, few);
      count = omega (arith, room, few);
      version = omega (arith, version, small);
    }) in
    let d' = desc_of_bytes (desc_bytes d) in
    let in_descs = lt-of_get_elem? descs i at in
    let read : edge.read_remote ((info.desc_addr + i * 24) % 2 ^ 64) info.desc_rkey 24
        ≡ some (desc_bytes d) =
      descs_there (i * 24) 24 (omega (arith, in_descs, length-array_desc_bytes descs))
      ∙ ap some (desc_bytes_at i descs d at) in
    let read_part =
      records_there (d.offset * 16) (d.count * 16)
        (omega (arith, room, length-array_record_bytes records)) in
    let same_part = records_at d.offset d.count records part here (sym count) w in
    rw (leaf, read, read_desc)
      (check_desc_lem edge info d' key
        (take (d.count * 16) (drop (d.offset * 16) (array_bytes record_bytes records))) part
        (version' ∙ version) (count' ∙ count) (omega (arith, offset', count', room, all))
        (omega (arith, offset', count', room, few)) (rw (offset', count') read_part)
        (rw count' same_part))

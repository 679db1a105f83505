-- ===== src/Snapshot/Grouped.antt =====
-- `build_rdma_snapshot` of src/edge/edge_server.cpp: the descriptor of a leaf, and the records that it
-- describes.
use plin_cloud_edge_device_l.Common.{
  ℕ, zero, suc, ◌+◌, ◌%◌, ◌^◌, ◌≤◌, ◌<◌, ◌≡◌, refl, sym, ap, ◌∙◌, inl, inr, List, [], ◌∷◌, some,
  arith, ◌==◌, length, get_elem?, set, take, drop, replicate, Bool-cases, ltb, ltb→lt, Option-cases,
  length-set, length-map, length-replicate, lt-of_get_elem?,
}
use mathlib.Core.Option.{some-injective}
use plin_cloud_edge_device_l.Double.{Double}
use plin_cloud_edge_device_l.Snapshot.{LeafDescriptor, KeyPayloadRecord, snapshot_version}
use plin_cloud_edge_device_l.Snapshot.Build.{
  bump, no_record, init_descs, count_leaves, set_offsets, fill,
}
use plin_cloud_edge_device_l.Snapshot.Counted.{
  count_of, total, get_elem?-count_leaves, total-count_leaves, length-count_leaves,
  length-set_offsets, get_elem?-set_offsets, total-take, total-take_lt,
}
use plin_cloud_edge_device_l.Snapshot.Filled.{
  Rows, leaves_of, records_in, Apart, Filled, fill-Filled,
}

count_of_le : (i : ℕ) (leaves : List ℕ) → count_of i leaves ≤ length leaves
count_of_le i [] = omega arith
count_of_le i (leaf ∷ leaves) = elim (Bool-cases (leaf == i)) [
  | inl t ↦ rw t (omega (arith, count_of_le i leaves))
  | inr f ↦ rw f (omega (arith, count_of_le i leaves))
]

pub length-records_in :
    (i : ℕ) (rows : Rows) → length (records_in i rows) ≡ count_of i (leaves_of rows)
length-records_in i [] = refl
length-records_in i ((leaf, r) ∷ rows) = elim (Bool-cases (leaf == i)) [
  | inl t ↦ rw t (ap suc (length-records_in i rows))
  | inr f ↦ rw f (length-records_in i rows)
]

length-fill :
    (rows : Rows) (ds : List LeafDescriptor) (records : List KeyPayloadRecord)
    → (length (fill rows ds records).0 ≡ length ds)
      × (length (fill rows ds records).1 ≡ length records)
unfolding fill
length-fill [] ds records = (refl, refl)
length-fill ((leaf, r) ∷ rows) ds records = elim (Option-cases (get_elem? ds leaf)) [
  | inl n ↦ rw (n, fill) (length-fill rows ds records)
  | inr (d, n) ↦
      let (p, q) =
        length-fill rows (set ds leaf (bump d)) (set records ((d.offset + d.count) % 2 ^ 64) r) in
      rw (n, fill) (p ∙ length-set ds leaf (bump d), q ∙ length-set records _ r)
]

extend {ℓ} :
    {A : Type ℓ} (ys xs : List A)
    → length ys ≤ length xs
    → ((m : ℕ) → m < length ys → get_elem? xs m ≡ get_elem? ys m)
    → take (length ys) xs ≡ ys
extend [] xs le h = refl
extend (y ∷ ys) [] le h = absurd (omega (arith, le))
extend (y ∷ ys) (x ∷ xs) le h =
    let q : x ≡ y = some-injective _ _ (h 0 (omega arith)) in
    rw q (ap (◌∷◌ y) (extend ys xs (omega (arith, le)) (λ m lt. h (suc m) (omega (arith, lt)))))

-- A part of a list, from its elements.
slice {ℓ} :
    {A : Type ℓ} (o : ℕ) (xs ys : List A)
    → o + length ys ≤ length xs
    → ((m : ℕ) → m < length ys → get_elem? xs (o + m) ≡ get_elem? ys m)
    → take (length ys) (drop o xs) ≡ ys
slice zero xs ys le h =
    extend ys xs (omega (arith, le))
      (λ m lt. let e : m ≡ 0 + m = omega arith in ap (get_elem? xs) e ∙ h m lt)
slice (suc o) [] ys le h = absurd (omega (arith, le))
slice (suc o) (x ∷ xs) ys le h =
    slice o xs ys (omega (arith, le))
      (λ m lt. let e : suc (o + m) ≡ suc o + m = omega arith in ap (get_elem? (x ∷ xs)) e ∙ h m lt)

abbrev first_of : Double → LeafDescriptor
first_of k = record { offset = 0; count = 0; version = snapshot_version; first_key = k }

get_elem?-init_descs :
    (table : List Double) (i : ℕ)
    → i < length table
    → (k : Double) × (get_elem? (init_descs table) i ≡ some (first_of k))
unfolding init_descs
get_elem?-init_descs [] i h = absurd (omega (arith, h))
get_elem?-init_descs (k ∷ table) zero h = (k, refl)
get_elem?-init_descs (k ∷ table) (suc i) h = get_elem?-init_descs table i (omega (arith, h))

total-init_descs : (table : List Double) → total (init_descs table) ≡ 0
unfolding init_descs
total-init_descs [] = refl
total-init_descs (k ∷ table) = omega (arith, total-init_descs table)

length-init_descs : (table : List Double) → length (init_descs table) ≡ length table
unfolding init_descs
length-init_descs table = length-map table _

module _ (table : List Double) (rows : Rows) (few : length rows < 2 ^ 32) where
  abbrev counted_descs : List LeafDescriptor
  counted_descs = count_leaves (leaves_of rows) (init_descs table)

  abbrev started : List LeafDescriptor
  started = set_offsets 0 counted_descs

  length-counted : length counted_descs ≡ length table
  length-counted = length-count_leaves (leaves_of rows) (init_descs table) ∙ length-init_descs table

  total-counted : total counted_descs ≤ length rows
  total-counted = omega (
    arith,
    total-count_leaves (leaves_of rows) (init_descs table),
    total-init_descs table,
    length-map rows (λ r. r.0),
  )

  count_few : (i : ℕ) → count_of i (leaves_of rows) < 2 ^ 32
  count_few i = omega (arith, few, count_of_le i (leaves_of rows), length-map rows (λ r. r.0))

  -- The descriptor of a leaf before the last loop: it starts behind the records of the leaves before it.
  abbrev Started : ℕ → LeafDescriptor → Type 0
  Started j x =
      (k : Double) × (get_elem? counted_descs j
        ≡ some (record (first_of k) { count = count_of j (leaves_of rows) }))
      × (x ≡ record (first_of k) { offset = total (take j counted_descs) })

  starts :
      (j : ℕ)
      → j < length table
      → (x : LeafDescriptor) × (get_elem? started j ≡ some x) × Started j x
  starts j h =
      let (k, e) = get_elem?-init_descs table j h in
      let c =
        get_elem?-count_leaves (leaves_of rows) (init_descs table) j (first_of k) e
          (omega (arith, count_few j)) in
      let c' : get_elem? counted_descs j
          ≡ some (record (first_of k) { count = count_of j (leaves_of rows) }) =
        c ∙ ap some (ap (λ n. record (first_of k) { count = n }) (omega arith)) in
      (
        record (first_of k) { offset = total (take j counted_descs) },
        get_elem?-set_offsets 0 counted_descs j _ c' (omega (arith, few, total-counted))
            ∙ ap some (ap (λ n. record (first_of k) { offset = n }) (omega arith)),
        (k, c', refl),
      )

  started-Apart :
      (i : ℕ)
      → i < length table
      → Apart i
          (total (take i counted_descs))
          (total (take i counted_descs) + 0 + count_of i (leaves_of rows))
          started
          rows
  started-Apart i h j x e ne =
      let length-started = length-set_offsets 0 counted_descs in
      let (x', e', (k, c, q)) =
        starts j (omega (arith, lt-of_get_elem? started j e, length-started, length-counted)) in
      let (y, ey, (ky, cy, qy)) = starts i h in
      let p : x' ≡ x = some-injective _ _ (sym e' ∙ e) in
      let behind = total-take counted_descs j _ c in
      rw (← p, q)
        (record {
          no_wrap = omega (arith, count_few j);
          no_overflow = omega (arith, behind, few, total-counted);
          side = elim (Bool-cases (ltb i j)) [
            | inl t ↦ inr (omega (arith, total-take_lt counted_descs i j _ cy (ltb→lt i j t)))
            | inr f ↦
                inl (omega (arith, total-take_lt counted_descs j i _ c (ground (arith, f, ne))))
          ];
        })

  -- What the snapshot says of a leaf: where its records lie, as many as the dataset has, in its order.
  pub record Describes (i : ℕ) (r : List LeafDescriptor × List KeyPayloadRecord) : Type 0 where
    pub desc : LeafDescriptor
    pub at : get_elem? r.0 i ≡ some desc
    pub version : desc.version ≡ snapshot_version
    pub count : desc.count ≡ length (records_in i rows)
    pub room : desc.offset + desc.count ≤ length r.1
    pub records : take desc.count (drop desc.offset r.1) ≡ records_in i rows

  abbrev pub result : List LeafDescriptor × List KeyPayloadRecord
  result = fill rows started (replicate (length rows) no_record)

  pub length-result : (length result.0 ≡ length table) × (length result.1 ≡ length rows)
  length-result =
      let (p, q) = length-fill rows started (replicate (length rows) no_record) in
      (
        p ∙ length-set_offsets 0 counted_descs ∙ length-counted,
        q ∙ length-replicate (length rows) no_record,
      )

  pub result-Describes : (i : ℕ) → i < length table → Describes i result
  result-Describes i h =
      let (x, e, (k, c, q)) = starts i h in
      let o = total (take i counted_descs) in
      let n = count_of i (leaves_of rows) in
      let room = total-take counted_descs i _ c in
      let replicated = length-replicate (length rows) no_record in
      let f : Filled i (record (first_of k) { offset = o }) rows (replicate (length rows) no_record)
          result =
        fill-Filled i rows started (replicate (length rows) no_record)
          (record (first_of k) { offset = o }) (e ∙ ap some q) (omega (arith, count_few i))
          (omega (arith, room, few, total-counted)) (omega (arith, room, total-counted, replicated))
          (started-Apart i h) in
      let same = length-records_in i rows in
      let inside : o + length (records_in i rows) ≤ length result.1 =
        omega (arith, same, room, total-counted, length-result.1) in
      record {
        desc = record (first_of k) { offset = o; count = 0 + n };
        at = f.desc;
        version = refl;
        count = omega (arith, same);
        room = omega (arith, same, inside);
        records =
            ap (λ m. take m (drop o result.1)) (omega (arith, same))
            ∙ slice o result.1 (records_in i rows) inside (λ m lt.
              ap (get_elem? result.1) (omega arith) ∙ f.behind m (omega (arith, same, lt)));
      }

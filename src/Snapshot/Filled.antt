-- ===== src/Snapshot/Filled.antt =====
-- The last loop of `build_rdma_snapshot` (src/edge/edge_server.cpp): the place that each record gets.
use plin_cloud_edge_device_l.Common.{
  ℕ, zero, suc, ◌+◌, ◌%◌, ◌^◌, ◌≤◌, ◌<◌, ◌≡◌, refl, sym, ap, ◌∙◌, ◌⊎◌, inl, inr, true, false, List,
  [], ◌∷◌, map, none, some, arith, ◌==◌, if◌then◌else◌, length, get_elem?, set, Bool-cases,
  Option-cases, ==_iff, get_elem?-set_self, get_elem?-set_ne, lt-of_get_elem?, length-set,
}
use mathlib.Core.Option.{some-injective}
use plin_cloud_edge_device_l.Snapshot.{LeafDescriptor, KeyPayloadRecord}
use plin_cloud_edge_device_l.Snapshot.Build.{bump, fill}
use plin_cloud_edge_device_l.Snapshot.Counted.{count_of, set_other}

abbrev pub Rows : Type 0
Rows = List (ℕ × KeyPayloadRecord)

-- The leaf of each row.
abbrev pub leaves_of : Rows → List ℕ
leaves_of = map (λ r. r.0)

-- The records of a leaf, in their order.
abbrev pub records_in : ℕ → Rows → List KeyPayloadRecord
records_in i [] = []
records_in i ((leaf, r) ∷ rows) = if leaf == i then r ∷ records_in i rows else records_in i rows

-- The records of another leaf go to places outside of `o` to `stop`.
pub record Clear (o stop : ℕ) (d : LeafDescriptor) (n : ℕ) : Type 0 where
  pub no_wrap : d.count + n < 2 ^ 32
  pub no_overflow : d.offset + d.count + n < 2 ^ 64
  pub side : (d.offset + d.count + n ≤ o) ⊎ (stop ≤ d.offset + d.count)

abbrev pub Apart : ℕ → ℕ → ℕ → List LeafDescriptor → Rows → Type 0
Apart i o stop ds rows =
    (j : ℕ) (d : LeafDescriptor)
    → get_elem? ds j ≡ some d
    → (j == i) ≡ false
    → Clear o stop d (count_of j (leaves_of rows))

-- What the rest of the loop does to a leaf: it counts its records, which come behind those that are there.
pub record Filled (i : ℕ) (d : LeafDescriptor) (rows : Rows) (records : List KeyPayloadRecord)
    (r : List LeafDescriptor × List KeyPayloadRecord) : Type 0 where
  pub desc : get_elem? r.0 i ≡ some (record d { count = d.count + count_of i (leaves_of rows) })
  pub before :
      (m : ℕ) → m < d.count → get_elem? r.1 (d.offset + m) ≡ get_elem? records (d.offset + m)
  pub behind :
      (m : ℕ)
      → m < count_of i (leaves_of rows)
      → get_elem? r.1 (d.offset + d.count + m) ≡ get_elem? (records_in i rows) m

bumped :
    (d : LeafDescriptor) (n : ℕ)
    → d.count + suc n < 2 ^ 32
    → bump d ≡ record d { count = d.count + 1 }
bumped d n h = ap (λ c. record d { count = c }) (omega (arith, h))

-- A record of the leaf itself.
fill_own :
    (i leaf : ℕ) (d : LeafDescriptor) (rows : Rows) (rec : KeyPayloadRecord)
    (records : List KeyPayloadRecord) (r : List LeafDescriptor × List KeyPayloadRecord)
    → (leaf == i) ≡ true
    → d.offset + d.count < length records
    → Filled i (record d { count = d.count + 1 }) rows (set records (d.offset + d.count) rec) r
    → Filled i d ((leaf, rec) ∷ rows) records r
fill_own i leaf d rows rec records r own h f = record {
  desc = rw own (f.desc ∙ ap some (ap (λ n. record d { count = n }) (omega arith)));
  before = λ m lt.
      f.before m (omega (arith, lt))
      ∙ get_elem?-set_ne records rec (λ e. absurd (omega (arith, e, lt)));
  behind = rw own (behind_own f);
}
  where
    behind_own :
        Filled i (record d { count = d.count + 1 }) rows (set records (d.offset + d.count) rec) r
        → (m : ℕ) → m < suc (count_of i (leaves_of rows))
        → get_elem? r.1 (d.offset + d.count + m) ≡ get_elem? (rec ∷ records_in i rows) m
    behind_own f zero lt =
        ap (get_elem? r.1) (omega arith)
        ∙ f.before d.count (omega arith)
        ∙ get_elem?-set_self records (d.offset + d.count) rec h
    behind_own f (suc m) lt = ap (get_elem? r.1) (omega arith) ∙ f.behind m (omega (arith, lt))

-- A record of another leaf.
fill_other :
    (i leaf place : ℕ) (d : LeafDescriptor) (rows : Rows) (rec : KeyPayloadRecord)
    (records : List KeyPayloadRecord) (r : List LeafDescriptor × List KeyPayloadRecord)
    → (leaf == i) ≡ false
    → (place < d.offset) ⊎ (d.offset + d.count + count_of i (leaves_of rows) ≤ place)
    → Filled i d rows (set records place rec) r
    → Filled i d ((leaf, rec) ∷ rows) records r
fill_other i leaf place d rows rec records r ne out f = record {
  desc = rw ne f.desc;
  before = λ m lt.
      f.before m lt
      ∙ get_elem?-set_ne records rec (λ e. elim out [
        | inl a ↦ absurd (omega (arith, a, e))
        | inr b ↦ absurd (omega (arith, b, e, lt))
      ]);
  behind = rw ne f.behind;
}

-- A record for which there is no leaf.
fill_none :
    (i leaf : ℕ) (d : LeafDescriptor) (rows : Rows) (rec : KeyPayloadRecord)
    (records : List KeyPayloadRecord) (r : List LeafDescriptor × List KeyPayloadRecord)
    → (leaf == i) ≡ false
    → Filled i d rows records r
    → Filled i d ((leaf, rec) ∷ rows) records r
fill_none i leaf d rows rec records r ne f = record {
  desc = rw ne f.desc;
  before = f.before;
  behind = rw ne f.behind;
}

other_of : (i j k : ℕ) → (i == j) ≡ true → (k == j) ≡ false → (i == k) ≡ false
other_of i j k h n = ground (arith, h, n)

own_kept :
    (i leaf : ℕ) (ds : List LeafDescriptor) (d : LeafDescriptor) (rows : Rows)
    (rec : KeyPayloadRecord) (o stop : ℕ)
    → (leaf == i) ≡ true
    → Apart i o stop ds ((leaf, rec) ∷ rows)
    → Apart i o stop (set ds leaf d) rows
own_kept i leaf ds d rows rec o stop own apart j x e ne =
    let n : (leaf == j) ≡ false = other_of leaf i j own ne in
    rw n at (apart j x (sym (set_other ds leaf j d n) ∙ e) ne)

none_kept :
    (i leaf : ℕ) (ds : List LeafDescriptor) (rows : Rows) (rec : KeyPayloadRecord) (o stop : ℕ)
    → get_elem? ds leaf ≡ none
    → Apart i o stop ds ((leaf, rec) ∷ rows)
    → Apart i o stop ds rows
none_kept i leaf ds rows rec o stop none_here apart j x e ne = elim (Bool-cases (leaf == j)) [
  | inr n ↦ rw n at (apart j x e ne)
  | inl t ↦ cc (none_here, ap (get_elem? ds) ((==_iff leaf j).0 t), e)
]

other_kept :
    (i leaf : ℕ) (ds : List LeafDescriptor) (d : LeafDescriptor) (rows : Rows)
    (rec : KeyPayloadRecord) (o stop : ℕ)
    → get_elem? ds leaf ≡ some d
    → (leaf == i) ≡ false
    → Apart i o stop ds ((leaf, rec) ∷ rows)
    → Apart i o stop (set ds leaf (bump d)) rows
other_kept i leaf ds d rows rec o stop here other apart j x e ne = elim (Bool-cases (leaf == j)) [
  | inr n ↦ rw n at (apart j x (sym (set_other ds leaf j (bump d) n) ∙ e) ne)
  | inl t ↦
      let same : leaf ≡ j = (==_iff leaf j).0 t in
      let c : Clear o stop d (suc (count_of j (leaves_of rows))) =
        rw t at (apart j d (ap (get_elem? ds) (sym same) ∙ here) ne) in
      let q : bump d ≡ x = some-injective _ _ (
        sym (get_elem?-set_self ds leaf (bump d) (lt-of_get_elem? ds leaf here))
        ∙ ap (get_elem? (set ds leaf (bump d))) same
        ∙ e) in
      let small : (d.count + 1) % 2 ^ 32 ≡ d.count + 1 = omega (arith, c.no_wrap) in
      rw (← q) (record {
        no_wrap = omega (arith, c.no_wrap, small);
        no_overflow = omega (arith, c.no_overflow, small);
        side = elim c.side [
          | inl a ↦ inl (omega (arith, a, small))
          | inr b ↦ inr (omega (arith, b, small))
        ];
      })
]

pub fill-Filled :
    (i : ℕ) (rows : Rows) (ds : List LeafDescriptor) (records : List KeyPayloadRecord)
    (d : LeafDescriptor)
    → get_elem? ds i ≡ some d
    → d.count + count_of i (leaves_of rows) < 2 ^ 32
    → d.offset + d.count + count_of i (leaves_of rows) < 2 ^ 64
    → d.offset + d.count + count_of i (leaves_of rows) ≤ length records
    → Apart i d.offset (d.offset + d.count + count_of i (leaves_of rows)) ds rows
    → Filled i d rows records (fill rows ds records)
unfolding fill
fill-Filled i [] ds records d e wrap over room apart = record {
  desc = e ∙ ap some (ap (λ n. record d { count = n }) (omega arith));
  before = λ m lt. refl;
  behind = λ m lt. absurd (omega (arith, lt));
}
fill-Filled i ((leaf, rec) ∷ rows) ds records d e wrap over room apart =
    elim (Bool-cases (leaf == i)) [
      | inl own ↦
          let same : leaf ≡ i = (==_iff leaf i).0 own in
          let here : get_elem? ds leaf ≡ some d = ap (get_elem? ds) same ∙ e in
          let n = count_of i (leaves_of rows) in
          let wrap' : d.count + suc n < 2 ^ 32 = rw own at wrap in
          let over' : d.offset + d.count + suc n < 2 ^ 64 = rw own at over in
          let room' : d.offset + d.count + suc n ≤ length records = rw own at room in
          let place : (d.offset + d.count) % 2 ^ 64 ≡ d.offset + d.count = omega (arith, over') in
          let next : bump d ≡ record d { count = d.count + 1 } = bumped d n wrap' in
          let d' = record d { count = d.count + 1 } in
          let stop : d.offset + d.count + suc n ≡ d.offset + (d.count + 1) + n = omega arith in
          let apart1 : Apart i d.offset (d.offset + d.count + suc n) ds ((leaf, rec) ∷ rows) =
            rw own at apart in
          let apart2 : Apart i d.offset (d.offset + (d.count + 1) + n) (set ds leaf d') rows =
            rw stop at
              (own_kept i leaf ds d' rows rec d.offset (d.offset + d.count + suc n) own apart1) in
          rw (here, place, next, fill)
            (fill_own i leaf d rows rec records _ own (omega (arith, room')) (
              fill-Filled i rows (set ds leaf d') (set records (d.offset + d.count) rec) d'
                (ap (get_elem? (set ds leaf d')) (sym same)
                  ∙ get_elem?-set_self ds leaf d' (lt-of_get_elem? ds leaf here))
                (omega (arith, wrap')) (omega (arith, over'))
                (omega (arith, room', length-set records (d.offset + d.count) rec)) apart2))
      | inr other ↦ elim (Option-cases (get_elem? ds leaf)) [
        | inl n ↦
            rw (n, fill)
              (fill_none i leaf d rows rec records (fill rows ds records) other (
                fill-Filled i rows ds records d e (rw other at wrap) (rw other at over)
                  (rw other at room) (none_kept i leaf ds rows rec _ _ n (rw other at apart))))
        | inr (x, n) ↦
            let o = d.offset in
            let stop = d.offset + d.count + count_of i (leaves_of rows) in
            let apart' : Apart i o stop ds ((leaf, rec) ∷ rows) = rw other at apart in
            let self : (leaf == leaf) ≡ true = (==_iff leaf leaf).1 refl in
            let c : Clear o stop x (suc (count_of leaf (leaves_of rows))) =
              rw self at (apart' leaf x n other) in
            let place : (x.offset + x.count) % 2 ^ 64 ≡ x.offset + x.count =
              omega (arith, c.no_overflow) in
            rw (n, place, fill)
              (fill_other i leaf (x.offset + x.count) d rows rec records _ other
                (elim c.side [ inl a ↦ inl (omega (arith, a)) | inr b ↦ inr b ])
                (fill-Filled i rows (set ds leaf (bump x)) (set records (x.offset + x.count) rec) d
                  (set_other ds leaf i (bump x) other ∙ e) (rw other at wrap) (rw other at over)
                  (omega (arith, (rw other at room), length-set records (x.offset + x.count) rec))
                  (other_kept i leaf ds x rows rec o stop n other apart')))
      ]
    ]

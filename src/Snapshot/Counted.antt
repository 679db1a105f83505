-- ===== src/Snapshot/Counted.antt =====
-- The first loops of `build_rdma_snapshot` (src/edge/edge_server.cpp): how many records each leaf gets, and
-- from which place on.
use plin_cloud_edge_device_l.Common.{
  ℕ, zero, suc, ◌+◌, ◌%◌, ◌^◌, ◌≤◌, ◌<◌, ◌≡◌, refl, sym, ap, ◌∙◌, inl, inr, false, List, [], ◌∷◌,
  some, arith, ◌==◌, if◌then◌else◌, length, get_elem?, set, take, Bool-cases, Option-cases, ==_iff,
  get_elem?-set_self, get_elem?-set_ne, lt-of_get_elem?, length-set,
}
use mathlib.Core.Logic.{◌≢◌}
use mathlib.Core.Option.{some-injective}
use plin_cloud_edge_device_l.Snapshot.{LeafDescriptor}
use plin_cloud_edge_device_l.Snapshot.Build.{bump, count_leaves, set_offsets}

-- How often a leaf stands in the list.
abbrev pub count_of : ℕ → List ℕ → ℕ
count_of i [] = 0
count_of i (leaf ∷ leaves) = if leaf == i then suc (count_of i leaves) else count_of i leaves

pub apart-of : (i j : ℕ) → (i == j) ≡ false → i ≢ j
apart-of i j h e = absurd (ground (arith, h, e))

-- Every other descriptor is as it was.
pub set_other :
    (ds : List LeafDescriptor) (i j : ℕ) (d : LeafDescriptor)
    → (i == j) ≡ false
    → get_elem? (set ds i d) j ≡ get_elem? ds j
set_other ds i j d h = get_elem?-set_ne ds d (apart-of i j h)

-- The descriptor of a leaf counts it.
pub get_elem?-count_leaves :
    (leaves : List ℕ) (ds : List LeafDescriptor) (i : ℕ) (d : LeafDescriptor)
    → get_elem? ds i ≡ some d
    → d.count + count_of i leaves < 2 ^ 32
    → get_elem? (count_leaves leaves ds) i ≡ some (record d { count = d.count + count_of i leaves })
unfolding count_leaves
get_elem?-count_leaves [] ds i d e h = e ∙ ap some (ap (λ n. record d { count = n }) (omega arith))
get_elem?-count_leaves (leaf ∷ leaves) ds i d e h = elim (Bool-cases (leaf == i)) [
  | inl t ↦
      let same : leaf ≡ i = (==_iff leaf i).0 t in
      let here : get_elem? ds leaf ≡ some d = ap (get_elem? ds) same ∙ e in
      let h' : d.count + suc (count_of i leaves) < 2 ^ 32 = rw t at h in
      let small : (d.count + 1) % 2 ^ 32 ≡ d.count + 1 = omega (arith, h') in
      rw (t, here, count_leaves)
        (get_elem?-count_leaves leaves (set ds leaf (bump d)) i (bump d)
            (ap (get_elem? (set ds leaf (bump d))) (sym same)
              ∙ get_elem?-set_self ds leaf (bump d) (lt-of_get_elem? ds leaf here))
            (omega (arith, small, h'))
          ∙ ap some (ap (λ n. record d { count = n }) (omega (arith, small))))
  | inr f ↦
      let h' : d.count + count_of i leaves < 2 ^ 32 = rw f at h in
      elim (Option-cases (get_elem? ds leaf)) [
        | inl n ↦ rw (f, n, count_leaves) (get_elem?-count_leaves leaves ds i d e h')
        | inr (d', n) ↦
            rw (f, n, count_leaves)
              (get_elem?-count_leaves leaves (set ds leaf (bump d')) i d
                (set_other ds leaf i (bump d') f ∙ e) h')
      ]
]

abbrev pub total : List LeafDescriptor → ℕ
total [] = 0
total (d ∷ ds) = d.count + total ds

total-set :
    (ds : List LeafDescriptor) (i : ℕ) (d d' : LeafDescriptor)
    → get_elem? ds i ≡ some d
    → total (set ds i d') + d.count ≡ total ds + d'.count
total-set [] i d d' e = cc
total-set (x ∷ ds) zero d d' e =
    let q : x.count ≡ d.count = ap (λ y. y.count) (some-injective _ _ e) in omega (arith, q)
total-set (x ∷ ds) (suc i) d d' e = omega (arith, total-set ds i d d' e)

-- No more than the list has.
pub total-count_leaves :
    (leaves : List ℕ) (ds : List LeafDescriptor)
    → total (count_leaves leaves ds) ≤ total ds + length leaves
unfolding count_leaves
total-count_leaves [] ds = omega arith
total-count_leaves (leaf ∷ leaves) ds = elim (Option-cases (get_elem? ds leaf)) [
  | inl n ↦ rw (n, count_leaves) (omega (arith, total-count_leaves leaves ds))
  | inr (d, n) ↦
      rw (n, count_leaves)
        (omega
          (arith, total-count_leaves leaves (set ds leaf (bump d)), total-set ds leaf d (bump d) n))
]

pub length-count_leaves :
    (leaves : List ℕ) (ds : List LeafDescriptor) → length (count_leaves leaves ds) ≡ length ds
unfolding count_leaves
length-count_leaves [] ds = refl
length-count_leaves (leaf ∷ leaves) ds = elim (Option-cases (get_elem? ds leaf)) [
  | inl n ↦ rw (n, count_leaves) (length-count_leaves leaves ds)
  | inr (d, n) ↦
      rw (n, count_leaves)
        (length-count_leaves leaves (set ds leaf (bump d)) ∙ length-set ds leaf (bump d))
]

pub length-set_offsets : (o : ℕ) (ds : List LeafDescriptor) → length (set_offsets o ds) ≡ length ds
unfolding set_offsets
length-set_offsets o [] = refl
length-set_offsets o (d ∷ ds) = ap suc (length-set_offsets ((o + d.count) % 2 ^ 64) ds)

abbrev pub at_offset : ℕ → LeafDescriptor → LeafDescriptor
at_offset o d = record d { offset = o; count = 0 }

-- A leaf starts behind the records of the leaves before it.
pub get_elem?-set_offsets :
    (o : ℕ) (ds : List LeafDescriptor) (i : ℕ) (d : LeafDescriptor)
    → get_elem? ds i ≡ some d
    → o + total ds < 2 ^ 64
    → get_elem? (set_offsets o ds) i ≡ some (at_offset (o + total (take i ds)) d)
unfolding set_offsets
get_elem?-set_offsets o [] i d e h = cc
get_elem?-set_offsets o (x ∷ ds) zero d e h =
    ap some (ap (at_offset o) (some-injective _ _ e) ∙ ap (λ n. at_offset n d) (omega arith))
get_elem?-set_offsets o (x ∷ ds) (suc i) d e h =
    let small : (o + x.count) % 2 ^ 64 ≡ o + x.count = omega (arith, h) in
    get_elem?-set_offsets ((o + x.count) % 2 ^ 64) ds i d e (omega (arith, small, h))
    ∙ ap some (ap (λ n. at_offset n d) (omega (arith, small)))

-- The records of a leaf lie within those of all.
pub total-take :
    (ds : List LeafDescriptor) (i : ℕ) (d : LeafDescriptor)
    → get_elem? ds i ≡ some d
    → total (take i ds) + d.count ≤ total ds
total-take [] i d e = cc
total-take (x ∷ ds) zero d e =
    let q : x.count ≡ d.count = ap (λ y. y.count) (some-injective _ _ e) in omega (arith, q)
total-take (x ∷ ds) (suc i) d e = omega (arith, total-take ds i d e)

-- A leaf ends before the next one starts.
pub total-take_lt :
    (ds : List LeafDescriptor) (i j : ℕ) (d : LeafDescriptor)
    → get_elem? ds i ≡ some d
    → i < j
    → total (take i ds) + d.count ≤ total (take j ds)
total-take_lt [] i j d e h = cc
total-take_lt (x ∷ ds) i zero d e h = omega (arith, h)
total-take_lt (x ∷ ds) zero (suc j) d e h =
    let q : x.count ≡ d.count = ap (λ y. y.count) (some-injective _ _ e) in omega (arith, q)
total-take_lt (x ∷ ds) (suc i) (suc j) d e h =
    omega (arith, total-take_lt ds i j d e (omega (arith, h)))

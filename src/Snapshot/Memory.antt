-- ===== src/Snapshot/Memory.antt =====
-- The arrays of a snapshot in memory (src/common/rdma_snapshot.h), and what the End makes of their bytes.
use plin_cloud_edge_device_l.Common.{
  ℕ, zero, suc, ◌+◌, ◌*◌, ◌^◌, ◌<◌, ◌≡◌, refl, sym, ap, ◌∙◌, List, [], ◌∷◌, ◌++◌, some, arith,
  length, get_elem?, take, drop, All, append-nil, length-append,
}
use mathlib.Core.Option.{some-injective}
use plin_cloud_edge_device_l.Bytes.{le_bytes, load_le}
use plin_cloud_edge_device_l.Snapshot.{
  LeafDescriptor, KeyPayloadRecord, desc_of_bytes, record_of_bytes,
}
use plin_cloud_edge_device_l.Snapshot.Lookup.{records_of_bytes}
use plin_cloud_edge_device_l.Snapshot.RoundTrip.{drop-add, load_le-skip, load_le-here}

-- The bytes of the structures in memory, which have no padding.
unfoldable pub desc_bytes : LeafDescriptor → List ℕ
desc_bytes d =
    le_bytes 8 d.offset ++ (le_bytes 4 d.count ++ (le_bytes 4 d.version ++ le_bytes 8 d.first_key))

unfoldable pub record_bytes : KeyPayloadRecord → List ℕ
record_bytes r = le_bytes 8 r.key ++ le_bytes 8 r.payload

-- The bytes of an array.
abbrev pub array_bytes {ℓ} : {A : Type ℓ} → (A → List ℕ) → List A → List ℕ
array_bytes f [] = []
array_bytes f (x ∷ xs) = f x ++ array_bytes f xs

-- The fields fill their widths.
pub record IsDesc (d : LeafDescriptor) : Type 0 where
  pub offset : d.offset < 2 ^ 64
  pub count : d.count < 2 ^ 32
  pub version : d.version < 2 ^ 32

pub record IsRecord (r : KeyPayloadRecord) : Type 0 where
  pub key : r.key < 2 ^ 64
  pub payload : r.payload < 2 ^ 64

length-desc_bytes : (d : LeafDescriptor) → length (desc_bytes d) ≡ 24
unfolding desc_bytes le_bytes
length-desc_bytes d = refl

length-record_bytes : (r : KeyPayloadRecord) → length (record_bytes r) ≡ 16
unfolding record_bytes le_bytes
length-record_bytes r = refl

-- What the End reads of a descriptor is what the Edge has put there.
pub desc_of_bytes-desc_bytes :
    (d : LeafDescriptor)
    → IsDesc d
    → let d' = desc_of_bytes (desc_bytes d) in
      (d'.offset ≡ d.offset) × (d'.count ≡ d.count) × (d'.version ≡ d.version)
unfolding desc_of_bytes desc_bytes
desc_of_bytes-desc_bytes d w = (
  load_le-here 8 d.offset _ (omega (arith, w.offset)),
  load_le-skip 4 8 d.offset 0 _ ∙ load_le-here 4 d.count _ (omega (arith, w.count)),
  load_le-skip 4 8 d.offset 4 _
      ∙ load_le-skip 4 4 d.count 0 _
      ∙ load_le-here 4 d.version _ (omega (arith, w.version)),
)

record_of_bytes-record_bytes :
    (r : KeyPayloadRecord) → IsRecord r → record_of_bytes (record_bytes r) ≡ r
unfolding record_of_bytes record_bytes
record_of_bytes-record_bytes r w =
    let key = load_le-here 8 r.key (le_bytes 8 r.payload) (omega (arith, w.key)) in
    let payload =
      load_le-skip 8 8 r.key 0 (le_bytes 8 r.payload)
      ∙ ap (λ b. load_le 8 b 0) (sym (append-nil (le_bytes 8 r.payload)))
      ∙ load_le-here 8 r.payload [] (omega (arith, w.payload)) in
    rw (key, payload) refl

take-add {ℓ} :
    {A : Type ℓ} (m n : ℕ) (front b : List A)
    → length front ≡ m
    → take (m + n) (front ++ b) ≡ front ++ take n b
take-add m n [] b h = let e : m + n ≡ n = omega arith in ap (λ k. take k b) e
take-add m n (x ∷ front) b h =
    let e : m + n ≡ suc (length front + n) = omega arith in
    ap (λ k. take k (x ∷ (front ++ b))) e ∙ ap (◌∷◌ x) (take-add (length front) n front b refl)

drop_nil {ℓ} : {A : Type ℓ} (n : ℕ) → drop {A = A} n [] ≡ []
drop_nil zero = refl
drop_nil (suc n) = refl

take_nil {ℓ} : {A : Type ℓ} (n : ℕ) → take {A = A} n [] ≡ []
take_nil zero = refl
take_nil (suc n) = refl

suc_times : (n size : ℕ) → suc n * size ≡ size + n * size
suc_times n size = omega arith

no_times : (size : ℕ) → 0 * size ≡ 0
no_times size = omega arith

-- Arrays of elements of one size.
module _ {ℓ} {A : Type ℓ} (f : A → List ℕ) (size : ℕ) (fixed : (x : A) → length (f x) ≡ size) where
  length-array_bytes : (xs : List A) → length (array_bytes f xs) ≡ length xs * size
  length-array_bytes [] = sym (no_times size)
  length-array_bytes (x ∷ xs) =
      length-append (f x) (array_bytes f xs)
      ∙ omega (arith, fixed x, length-array_bytes xs, suc_times (length xs) size)

  drop-array_bytes :
      (i : ℕ) (xs : List A) → drop (i * size) (array_bytes f xs) ≡ array_bytes f (drop i xs)
  drop-array_bytes zero xs = ap (λ n. drop n (array_bytes f xs)) (no_times size)
  drop-array_bytes (suc i) [] = drop_nil (suc i * size)
  drop-array_bytes (suc i) (x ∷ xs) =
      ap (λ n. drop n (f x ++ array_bytes f xs)) (suc_times i size)
      ∙ drop-add size (i * size) (f x) (array_bytes f xs) (fixed x)
      ∙ drop-array_bytes i xs

  take-array_bytes :
      (i : ℕ) (xs : List A) → take (i * size) (array_bytes f xs) ≡ array_bytes f (take i xs)
  take-array_bytes zero xs = ap (λ n. take n (array_bytes f xs)) (no_times size)
  take-array_bytes (suc i) [] = take_nil (suc i * size)
  take-array_bytes (suc i) (x ∷ xs) =
      ap (λ n. take n (f x ++ array_bytes f xs)) (suc_times i size)
      ∙ take-add size (i * size) (f x) (array_bytes f xs) (fixed x)
      ∙ ap (λ b. f x ++ b) (take-array_bytes i xs)

  -- The bytes of one element.
  element :
      (i : ℕ) (xs : List A) (x : A)
      → get_elem? xs i ≡ some x
      → take size (drop (i * size) (array_bytes f xs)) ≡ f x
  element i [] x e = cc
  element zero (y ∷ xs) x e =
      ap (λ n. take size (drop n (f y ++ array_bytes f xs))) (no_times size)
      ∙ (let n : size ≡ size + 0 = omega arith in ap (λ m. take m (f y ++ array_bytes f xs)) n)
      ∙ take-add size 0 (f y) (array_bytes f xs) (fixed y)
      ∙ append-nil (f y)
      ∙ ap f (some-injective _ _ e)
  element (suc i) (y ∷ xs) x e =
      ap (λ n. take size (drop n (f y ++ array_bytes f xs))) (suc_times i size)
      ∙ ap (take size) (drop-add size (i * size) (f y) (array_bytes f xs) (fixed y))
      ∙ element i xs x e

records_of_bytes-array_bytes :
    (rs : List KeyPayloadRecord)
    → All IsRecord rs
    → records_of_bytes (length rs) (array_bytes record_bytes rs) ≡ rs
unfolding records_of_bytes
records_of_bytes-array_bytes [] w = refl
records_of_bytes-array_bytes (r ∷ rs) w =
    let rest = array_bytes record_bytes rs in
    let front : take 16 (record_bytes r ++ rest) ≡ record_bytes r =
      take-add 16 0 (record_bytes r) rest (length-record_bytes r) ∙ append-nil (record_bytes r) in
    let back : drop 16 (record_bytes r ++ rest) ≡ rest =
      drop-add 16 0 (record_bytes r) rest (length-record_bytes r) in
    rw (front, back, record_of_bytes-record_bytes r w.0)
      (ap (◌∷◌ r) (records_of_bytes-array_bytes rs w.1))

-- The bytes of descriptor `i` of an array.
pub desc_bytes_at :
    (i : ℕ) (ds : List LeafDescriptor) (d : LeafDescriptor)
    → get_elem? ds i ≡ some d
    → take 24 (drop (i * 24) (array_bytes desc_bytes ds)) ≡ desc_bytes d
desc_bytes_at i ds d e = element desc_bytes 24 length-desc_bytes i ds d e

pub length-array_desc_bytes :
    (ds : List LeafDescriptor) → length (array_bytes desc_bytes ds) ≡ length ds * 24
length-array_desc_bytes ds = length-array_bytes desc_bytes 24 length-desc_bytes ds

pub length-array_record_bytes :
    (rs : List KeyPayloadRecord) → length (array_bytes record_bytes rs) ≡ length rs * 16
length-array_record_bytes rs = length-array_bytes record_bytes 16 length-record_bytes rs

-- The records that the End makes of a part of the array are those at its places.
pub records_at :
    (o n : ℕ) (rs part : List KeyPayloadRecord)
    → take n (drop o rs) ≡ part
    → length part ≡ n
    → All IsRecord part
    → records_of_bytes n (take (n * 16) (drop (o * 16) (array_bytes record_bytes rs))) ≡ part
records_at o n rs part e l w =
    let bytes = drop-array_bytes record_bytes 16 length-record_bytes o rs in
    let some_bytes = take-array_bytes record_bytes 16 length-record_bytes n (drop o rs) in
    rw (bytes, some_bytes, e, ← l) (records_of_bytes-array_bytes part w)

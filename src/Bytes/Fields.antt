-- ===== src/Bytes/Fields.antt =====
-- What is read from a buffer is what was put there.
use plin_cloud_edge_device_l.Common.{
  ℕ, zero, suc, ◌+◌, ◌/◌, ◌^◌, ◌<◌, ◌≡◌, refl, sym, ◌∙◌, ap, List, ◌++◌, some, arith, length, take,
  length-append, take-length, drop-length, append_assoc, le→not_ltb,
}
use plin_cloud_edge_device_l.Bytes.{
  le_bytes, of_le_bytes, append_u32, append_double, load_le, read_u32, read_double, swap_u32,
}
use plin_cloud_edge_device_l.Double.{Double}

pub length-le_bytes : (n v : ℕ) → length (le_bytes n v) ≡ n
unfolding le_bytes
length-le_bytes zero v = refl
length-le_bytes (suc n) v = ap suc (length-le_bytes n (v / 256))

of_le_bytes-le_bytes_mul : (n v : ℕ) → v < 256 ^ n → of_le_bytes (le_bytes n v) ≡ v
unfolding le_bytes of_le_bytes
of_le_bytes-le_bytes_mul zero v h = omega arith
of_le_bytes-le_bytes_mul (suc n) v h =
    omega (arith, of_le_bytes-le_bytes_mul n (v / 256) (omega arith))

pub of_le_bytes-le_bytes : (n v : ℕ) → v < 256 ^ n → of_le_bytes (le_bytes n v) ≡ v
of_le_bytes-le_bytes n v h = of_le_bytes-le_bytes_mul n v h

-- A field that stands behind `front` and before `back`.
pub load_le-field :
    (n v : ℕ) (front back : List ℕ)
    → v < 256 ^ n
    → load_le n (front ++ (le_bytes n v ++ back)) (length front) ≡ v
unfolding load_le
load_le-field n v front back h = rw (drop-length front (le_bytes n v ++ back)) (
    ap (λ m. of_le_bytes (take m (le_bytes n v ++ back))) (sym (length-le_bytes n v))
    ∙ ap of_le_bytes (take-length (le_bytes n v) back)
    ∙ of_le_bytes-le_bytes n v h)

pub load_le-at :
    (n v off : ℕ) (b front back : List ℕ)
    → v < 256 ^ n
    → length front ≡ off
    → b ≡ front ++ (le_bytes n v ++ back)
    → load_le n b off ≡ v
load_le-at n v off b front back h l e =
    ap (λ x. load_le n x off) e
    ∙ ap (load_le n (front ++ (le_bytes n v ++ back))) (sym l)
    ∙ load_le-field n v front back h

pub read_u32-append_u32 :
    (b back : List ℕ) (v : ℕ) → v < 2 ^ 32 → read_u32 (append_u32 b v ++ back) (length b) ≡ some v
unfolding read_u32 append_u32
read_u32-append_u32 b back v h =
    rw
      (
        append_assoc,
        le→not_ltb (length (b ++ (le_bytes 4 v ++ back))) (length b + 4) (
            rw
              (
                length-append b (le_bytes 4 v ++ back),
                length-append (le_bytes 4 v) back,
                length-le_bytes,
              )
              (omega arith)),
      )
      (ap some (load_le-field 4 v b back (omega arith)))

pub read_double-append_double :
    (b back : List ℕ) (v : Double)
    → v < 2 ^ 64
    → read_double (append_double b v ++ back) (length b) ≡ some v
unfolding read_double append_double
read_double-append_double b back v h =
    rw
      (
        append_assoc,
        le→not_ltb (length (b ++ (le_bytes 8 v ++ back))) (length b + 8) (
            rw
              (
                length-append b (le_bytes 8 v ++ back),
                length-append (le_bytes 8 v) back,
                length-le_bytes,
              )
              (omega arith)),
      )
      (ap some (load_le-field 8 v b back (omega arith)))

pub swap_u32-swap_u32 : (v : ℕ) → v < 2 ^ 32 → swap_u32 (swap_u32 v) ≡ v
unfolding swap_u32
swap_u32-swap_u32 v h = omega arith

pub swap_u32-lt : (v : ℕ) → swap_u32 v < 2 ^ 32
unfolding swap_u32
swap_u32-lt v = omega arith

-- A number of 32 bits, or a double of 64 bits, that is appended to a buffer is read back at the old length
-- of the buffer, whatever follows it.
pub fields_back :
    (b back : List ℕ) (v : ℕ) (d : Double)
    → v < 2 ^ 32
    → d < 2 ^ 64
    → (read_u32 (append_u32 b v ++ back) (length b) ≡ some v)
      × (read_double (append_double b d ++ back) (length b) ≡ some d)
fields_back b back v d h h' =
    (read_u32-append_u32 b back v h, read_double-append_double b back d h')

-- ===== src/Plin/RoundTrip.antt =====
-- What an Edge serialises is what an End loads.
use plin_cloud_edge_device_l.Common.{
  All, ℕ, ◌^◌, ◌<◌, ◌≡◌, refl, sym, ap, ◌∙◌, false, List, [], ◌∷◌, ◌++◌, some, arith, length, take,
  drop, length-append, append_assoc, take-length, drop-length, ltb, if◌then◌else◌, le→not_ltb,
}
use plin_cloud_edge_device_l.Bytes.{le_bytes, of_le_bytes}
use plin_cloud_edge_device_l.Bytes.Fields.{length-le_bytes, of_le_bytes-le_bytes}
use plin_cloud_edge_device_l.Plin.{Param, Params}
use plin_cloud_edge_device_l.Plin.Stream.{
  serialize_param, serialize_each, serialize_vector_of_params, serialize_levels,
  serialize_parameter, IStream, read_field, read_size, deserialize_param, deserialize_each, ok,
  invalid_payload, deserialize_vector_of_params, deserialize_levels, check_outer_size,
  deserialize_parameter,
}

-- The fields of a parameter fill 64 bits.
pub record IsParam (p : Param) : Type 0 where
  pub first_key : p.first_key < 2 ^ 64
  pub slope : p.slope < 2 ^ 64
  pub intercept : p.intercept < 2 ^ 64
  pub block_num : p.block_num < 2 ^ 64

abbrev pub IsLevel : List Param → Type 0
IsLevel v = (length v < 2 ^ 64) × All IsParam v

-- A stream that has not failed.
abbrev pub stream : List ℕ → IStream
stream bs = record { rest = bs; failed = false }

take_field : (v : ℕ) (tail : List ℕ) → v < 2 ^ 64 → of_le_bytes (take 8 (le_bytes 8 v ++ tail)) ≡ v
take_field v tail h =
    ap (λ n. of_le_bytes (take n (le_bytes 8 v ++ tail))) (sym (length-le_bytes 8 v))
    ∙ ap of_le_bytes (take-length (le_bytes 8 v) tail)
    ∙ of_le_bytes-le_bytes 8 v (omega arith)

drop_field : (v : ℕ) (tail : List ℕ) → drop 8 (le_bytes 8 v ++ tail) ≡ tail
drop_field v tail =
    ap (λ n. drop n (le_bytes 8 v ++ tail)) (sym (length-le_bytes 8 v))
    ∙ drop-length (le_bytes 8 v) tail

long_enough : (v : ℕ) (tail : List ℕ) → ltb (length (le_bytes 8 v ++ tail)) 8 ≡ false
long_enough v tail =
    le→not_ltb (length (le_bytes 8 v ++ tail)) 8
      (omega (arith, length-append (le_bytes 8 v) tail, length-le_bytes 8 v))

read_field-le_bytes :
    (v : ℕ) (tail : List ℕ)
    → v < 2 ^ 64
    → read_field (stream (le_bytes 8 v ++ tail)) ≡ (v, stream tail)
unfolding read_field
read_field-le_bytes v tail h = rw (long_enough v tail, take_field v tail h, drop_field v tail)

read_size-le_bytes :
    (v : ℕ) (tail : List ℕ)
    → v < 2 ^ 64
    → read_size (stream (le_bytes 8 v ++ tail)) ≡ (some v, stream tail)
unfolding read_size
read_size-le_bytes v tail h = rw (long_enough v tail, take_field v tail h, drop_field v tail)

deserialize_param-serialize_param :
    (p : Param) (tail : List ℕ)
    → IsParam p
    → deserialize_param (stream (serialize_param p ++ tail)) ≡ (p, stream tail)
unfolding deserialize_param serialize_param
deserialize_param-serialize_param p tail v =
    rw
      (append_assoc (le_bytes 8 p.first_key)
        (le_bytes 8 p.slope ++ (le_bytes 8 p.intercept ++ le_bytes 8 p.block_num)) tail)
      (rw
        (append_assoc (le_bytes 8 p.slope) (le_bytes 8 p.intercept ++ le_bytes 8 p.block_num) tail)
        (rw (append_assoc (le_bytes 8 p.intercept) (le_bytes 8 p.block_num) tail) (
          rw
            (
              read_field-le_bytes p.first_key _ v.first_key,
              read_field-le_bytes p.slope _ v.slope,
              read_field-le_bytes p.intercept _ v.intercept,
              read_field-le_bytes p.block_num tail v.block_num,
            )
            refl)))

deserialize_each-serialize_each :
    (ps : List Param) (tail : List ℕ)
    → All IsParam ps
    → deserialize_each (length ps) (stream (serialize_each ps ++ tail)) ≡ (ps, stream tail)
unfolding deserialize_each serialize_each
deserialize_each-serialize_each [] tail v = refl
deserialize_each-serialize_each (p ∷ ps) tail v =
    rw
      (
        append_assoc (serialize_param p) (serialize_each ps) tail,
        deserialize_param-serialize_param p _ v.0,
        deserialize_each-serialize_each ps tail v.1,
      )
      refl

deserialize_vector-serialize_vector :
    (ps : List Param) (tail : List ℕ)
    → IsLevel ps
    → deserialize_vector_of_params (stream (serialize_vector_of_params ps ++ tail))
      ≡ ok (ps, stream tail)
unfolding deserialize_vector_of_params serialize_vector_of_params
deserialize_vector-serialize_vector ps tail v =
    rw
      (
        append_assoc (le_bytes 8 (length ps)) (serialize_each ps) tail,
        read_size-le_bytes (length ps) _ v.0,
      )
      (ap ok (deserialize_each-serialize_each ps tail v.1))

deserialize_levels-serialize_levels :
    (vs : Params) (tail : List ℕ)
    → All IsLevel vs
    → deserialize_levels (length vs) (stream (serialize_levels vs ++ tail)) ≡ ok (vs, stream tail)
unfolding deserialize_levels serialize_levels
deserialize_levels-serialize_levels [] tail h = refl
deserialize_levels-serialize_levels (v ∷ vs) tail h =
    rw
      (
        append_assoc (serialize_vector_of_params v) (serialize_levels vs) tail,
        deserialize_vector-serialize_vector v _ h.0,
        deserialize_levels-serialize_levels vs tail h.1,
      )
      refl

-- Parameters with fields and lengths of 64 bits are loaded as they were serialised if they have at most
-- 100 levels, whatever bytes follow, and all their bytes are read; with more levels they are serialised
-- all the same, and the reader refuses them with an exception.
pub deserialize_parameter-serialize_parameter :
    (vs : Params) (tail : List ℕ)
    → All IsLevel vs
    → length vs < 2 ^ 64
    → deserialize_parameter (stream (serialize_parameter vs ++ tail))
      ≡ (if ltb 100 (length vs) then invalid_payload else ok (vs, stream tail))
unfolding deserialize_parameter serialize_parameter check_outer_size
deserialize_parameter-serialize_parameter vs tail v h =
    rw
      (
        append_assoc (le_bytes 8 (length vs)) (serialize_levels vs) tail,
        read_size-le_bytes (length vs) _ h,
      )
      (ap (λ r. if ltb 100 (length vs) then invalid_payload else r)
        (deserialize_levels-serialize_levels vs tail v))

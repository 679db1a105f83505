-- ===== src/Plin/Stream.antt =====
-- src/core/index/serialize.h and `serialize`, `deserialize` of `Param` in
-- src/core/index/cache_model.h, over the input stream of a received body. A `resize` to a length that
-- memory cannot hold is not modelled.
use plin_cloud_edge_device_l.Common.{
  ℕ, zero, suc, Bool, true, false, List, [], ◌∷◌, ◌++◌, Option, none, some, ltb, if◌then◌else◌,
  length, take, drop,
}
use plin_cloud_edge_device_l.Bytes.{le_bytes, of_le_bytes}
use plin_cloud_edge_device_l.Plin.{Param, Params}

unfoldable pub serialize_param : Param → List ℕ
serialize_param p =
    le_bytes 8 p.first_key
    ++ (le_bytes 8 p.slope ++ (le_bytes 8 p.intercept ++ le_bytes 8 p.block_num))

-- The loop of `serialize_vector_of_params`.
unfoldable pub serialize_each : List Param → List ℕ
serialize_each [] = []
serialize_each (p ∷ ps) = serialize_param p ++ serialize_each ps

unfoldable pub serialize_vector_of_params : List Param → List ℕ
serialize_vector_of_params vec = le_bytes 8 (length vec) ++ serialize_each vec

-- The loop of `serialize_parameter`.
unfoldable pub serialize_levels : Params → List ℕ
serialize_levels [] = []
serialize_levels (v ∷ vs) = serialize_vector_of_params v ++ serialize_levels vs

unfoldable pub serialize_parameter : Params → List ℕ
serialize_parameter parameter = le_bytes 8 (length parameter) ++ serialize_levels parameter

-- `std::istream` over a buffer: the bytes not yet read, and whether a read has failed.
pub record IStream : Type 0 where
  pub rest : List ℕ
  pub failed : Bool

-- `is.read(&x, 8)` where `x` is 0 before: a short read puts the bytes that are there into the low
-- places, and a stream that has failed leaves `x` as it is.
unfoldable pub read_field : IStream → ℕ × IStream
read_field is =
    if is.failed
    then (0, is)
    else if ltb (length is.rest) 8
    then (of_le_bytes is.rest, record { rest = []; failed = true })
    else (of_le_bytes (take 8 is.rest), record { rest = drop 8 is.rest; failed = false })

-- The same where `x` has no value before: `none` is an indeterminate one.
unfoldable pub read_size : IStream → Option ℕ × IStream
read_size is =
    if is.failed
    then (none, is)
    else if ltb (length is.rest) 8
    then (none, record { rest = []; failed = true })
    else (some (of_le_bytes (take 8 is.rest)), record { rest = drop 8 is.rest; failed = false })

unfoldable pub deserialize_param : IStream → Param × IStream
deserialize_param is =
    let (k, is1) = read_field is in
    let (s, is2) = read_field is1 in
    let (i, is3) = read_field is2 in
    let (b, is4) = read_field is3 in
    (record { first_key = k; slope = s; intercept = i; block_num = b }, is4)

-- The loop of `deserialize_vector_of_params` over the `n` elements that `resize` made, each of them
-- with fields 0.
unfoldable pub deserialize_each : ℕ → IStream → List Param × IStream
deserialize_each zero is = ([], is)
deserialize_each (suc n) is =
    let (p, is1) = deserialize_param is in let (ps, is2) = deserialize_each n is1 in (p ∷ ps, is2)

-- `invalid_payload` is the exception that `deserialize_parameter` throws; `indeterminate` is a run that
-- takes a variable with no value for a length.
pub data Result {ℓ} (A : Type ℓ) : Type ℓ where
  ok : A → Result A
  invalid_payload : Result A
  indeterminate : Result A

infixl 5 ◌>>=◌
abbrev pub ◌>>=◌ {ℓ κ} : {A : Type ℓ} {B : Type κ} → Result A → (A → Result B) → Result B
ok a >>= f = f a
invalid_payload >>= f = invalid_payload
indeterminate >>= f = indeterminate

abbrev pub determined {ℓ} : {A : Type ℓ} → Option ℕ × A → Result (ℕ × A)
determined (none, is) = indeterminate
determined (some n, is) = ok (n, is)

unfoldable pub deserialize_vector_of_params : IStream → Result (List Param × IStream)
deserialize_vector_of_params is = do
  (size, is') ← determined (read_size is)
  ok (deserialize_each size is')

-- The loop of `deserialize_parameter` over the `n` levels that `resize` made.
unfoldable pub deserialize_levels : ℕ → IStream → Result (Params × IStream)
deserialize_levels zero is = ok ([], is)
deserialize_levels (suc n) is = do
  (v, is') ← deserialize_vector_of_params is
  (vs, is'') ← deserialize_levels n is'
  ok (v ∷ vs, is'')

unfoldable pub check_outer_size : ℕ → IStream → Result (Params × IStream)
check_outer_size outer_size is =
    if ltb 100 outer_size then invalid_payload else deserialize_levels outer_size is

unfoldable pub deserialize_parameter : IStream → Result (Params × IStream)
deserialize_parameter is = do
  (outer_size, is') ← determined (read_size is)
  check_outer_size outer_size is'

-- ===== src/Plin/Predict.antt =====
-- `local_model::predict_pos` and `predict_block` of src/core/index/cache_model.h, and the cache of
-- src/end/parent_plin_cache.h. The arithmetic on doubles is a parameter; `none` is undefined behaviour,
-- the access to a level with no parameter.
use plin_cloud_edge_device_l.Common.{
  ℕ, suc, ◌+◌, ◌-◌, ◌*◌, ◌%◌, ◌^◌, Bool, true, false, List, [], ◌∷◌, Option, none, some, leb,
  if◌then◌else◌, length, get_elem?,
}
use plin_cloud_edge_device_l.Common.Int.{ℤ, pos, negsuc, pos_part, ltb_ℤ}
use plin_cloud_edge_device_l.Double.{Double, double_le}
use plin_cloud_edge_device_l.Plin.{Param, Params}
use plin_cloud_edge_device_l.Plin.Stream.{Result, ok, ◌>>=◌, deserialize_parameter}

-- What the predictions use of the processor's floating-point numbers.
pub record Arith : Type 0 where
  -- `(int64_t)((key * slope + intercept + 0.5) / 8)` with `intercept` passed as a float.
  pub block_at : Double → Double → Double → ℤ
  -- The same divided by 16, the slots of a block of a leaf.
  pub leaf_block_at : Double → Double → Double → ℤ
  -- `(uint64_t)(n * 0.3)`, the limit on the overflow of a leaf.
  pub overflow_limit : ℕ → ℕ
  -- The conversions of a `uint64_t` to a double, and of a double to an `int`.
  pub of_u64 : ℕ → Double
  pub to_int : Double → ℤ
  -- `+`, `-`, `*` and `/` of doubles, and the rounding of a double to a float.
  pub add : Double → Double → Double
  pub sub : Double → Double → Double
  pub mul : Double → Double → Double
  pub div : Double → Double → Double
  pub to_float : Double → Double

module _ (a : Arith) where
  -- `block_number - 4` and `block_number - 2` are subtractions of 32 bits, and wrap below 4 and 2.
  unfoldable pub predict_block : Double → Double → Double → ℕ → ℕ
  predict_block key slope intercept block_number =
      let predicted_block = a.block_at key slope intercept in
      if ltb_ℤ predicted_block (pos 0)
      then 0
      else if ltb_ℤ (pos ((block_number + 2 ^ 32 - 4) % 2 ^ 32)) predicted_block
      then (block_number + 2 ^ 32 - 2) % 2 ^ 32
      else (pos_part predicted_block + 1) % 2 ^ 32

-- The inner loop: how many parameters at the front have a first key not above the value.
unfoldable pub segments_below : Double → List Param → ℕ
segments_below value [] = 0
segments_below value (p ∷ ps) =
    let more = segments_below value ps in if double_le p.first_key value then suc more else 0

-- `temp_pos`: the segment after those, or the last one.
unfoldable pub segment : Double → List Param → ℕ
segment value level_params =
    let k = segments_below value level_params in
    if leb (length level_params) k then length level_params - 1 else k

module _ (a : Arith) where
  -- One round of the loop over the levels.
  unfoldable pub predict_level : Double → List Param → Option Double
  predict_level value level_params = elim (get_elem? level_params (segment value level_params)) [
    | none ↦ none
    | some p ↦
        some (a.of_u64 (predict_block a value p.slope p.intercept (p.block_num % 2 ^ 32) * 8))
  ]

  -- The loop goes from the last level of the vector to the first.
  unfoldable pub predict_levels : Params → Double → Option Double
  predict_levels [] value = some value
  predict_levels (level_params ∷ above) value = elim (predict_levels above value) [
    | none ↦ none
    | some v ↦ predict_level v level_params
  ]

  unfoldable pub predict_pos : Params → Double → Option ℤ
  predict_pos parameter key = elim (predict_levels parameter key) [
    | none ↦ none
    | some v ↦ some (a.to_int v)
  ]

-- `ParentPlinCache`: the parameters of the model, empty until a push arrives.
pub record ParentPlinCache : Type 0 where
  pub parameter : Params

unfoldable pub loaded : ParentPlinCache → Bool
loaded c = elim c.parameter [ [] ↦ false | level ∷ above ↦ true ]

-- The cache is replaced only after the whole body has been read.
unfoldable pub load_from_push : ParentPlinCache → List ℕ → Result ParentPlinCache
load_from_push c data_bytes = do
  (params, is) ← deserialize_parameter (record { rest = data_bytes; failed = false })
  ok (record { parameter = params })

module _ (a : Arith) where
  -- `ParentPlinCache::predict_pos`.
  unfoldable pub cached_pos : ParentPlinCache → Double → Option ℤ
  cached_pos c key = if loaded c then predict_pos a c.parameter key else some (negsuc 0)

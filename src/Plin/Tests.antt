-- ===== src/Plin/Tests.antt =====
-- A model of two levels, and a processor on which the numbers are small.
use plin_cloud_edge_device_l.Common.{
  ℕ, zero, suc, ◌+◌, ◌-◌, ◌*◌, ◌/◌, ◌^◌, ◌≡◌, ◌≤◌, ◌<◌, refl, List, [], ◌∷◌, ◌++◌, some, arith,
  get_elem?,
}
use plin_cloud_edge_device_l.Common.Int.{ℤ, pos}
use mathlib.Core.Path.{subst}
use mathlib.Core.Option.{some-injective}
use plin_cloud_edge_device_l.Plin.{Param}
use plin_cloud_edge_device_l.Plin.Stream.{serialize_parameter, deserialize_parameter, ok}
use plin_cloud_edge_device_l.Plin.RoundTrip.{
  IsParam, stream, deserialize_parameter-serialize_parameter,
}
use plin_cloud_edge_device_l.Plin.Predict.{Arith, predict_pos}
use plin_cloud_edge_device_l.Plin.Bounds.{IsSlotOf, predict_pos-slot}

-- A conversion keeps a number as it is.
abbrev pub small : Arith
small = record {
  block_at = λ k s i. pos ((k + i) / 8);
  leaf_block_at = λ k s i. pos ((k + i) / 16);
  overflow_limit = λ n. n * 3 / 10;
  of_u64 = λ n. n;
  to_int = λ d. pos d;
  add = λ x y. x + y;
  sub = λ x y. x - y;
  mul = λ x y. x * y;
  div = λ x y. x / y;
  to_float = λ x. x;
}

abbrev low : Param
low = record { first_key = 10; slope = 1; intercept = 0; block_num = 16 }

abbrev high : Param
high = record { first_key = 90; slope = 2; intercept = 3; block_num = 8 }

low-IsParam : IsParam low
low-IsParam = record {
  first_key = omega arith;
  slope = omega arith;
  intercept = omega arith;
  block_num = omega arith;
}

high-IsParam : IsParam high
high-IsParam = record {
  first_key = omega arith;
  slope = omega arith;
  intercept = omega arith;
  block_num = omega arith;
}

abbrev lowest : List Param
lowest = low ∷ high ∷ []

abbrev upper : List Param
upper = high ∷ []

deserialize_parameter-serialize_parameter_example :
    deserialize_parameter (stream (serialize_parameter (lowest ∷ upper ∷ []) ++ (5 ∷ [])))
    ≡ ok (lowest ∷ upper ∷ [], stream (5 ∷ []))
deserialize_parameter-serialize_parameter_example =
    deserialize_parameter-serialize_parameter (lowest ∷ upper ∷ []) (5 ∷ [])
      ((omega arith, (low-IsParam, (high-IsParam, tt))), ((omega arith, (high-IsParam, tt)), tt))
      (omega arith)

abbrev Wide : Param → Type 0
Wide p = (4 ≤ p.block_num) × (p.block_num < 2 ^ 28)

wide : (x p : Param) → some x ≡ some p → Wide x → Wide p
wide x p h = subst Wide (some-injective x p h)

lowest-Wide : (i : ℕ) (p : Param) → get_elem? lowest i ≡ some p → Wide p
lowest-Wide zero p h = wide low p h (omega arith, omega arith)
lowest-Wide (suc zero) p h = wide high p h (omega arith, omega arith)
lowest-Wide (suc (suc i)) p h = cc

upper-Wide : (i : ℕ) (p : Param) → get_elem? upper i ≡ some p → Wide p
upper-Wide zero p h = wide high p h (omega arith, omega arith)
upper-Wide (suc i) p h = cc

predict_pos-slot_example :
    (r : ℤ) × (predict_pos small (lowest ∷ upper ∷ []) 100 ≡ some r) × IsSlotOf lowest r
predict_pos-slot_example =
    predict_pos-slot small lowest (upper ∷ []) 100 (λ n h. refl) (omega arith, lowest-Wide)
      ((omega arith, upper-Wide), tt)

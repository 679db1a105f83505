-- ===== src/Double.antt =====
-- The keys of the index: C++ `double`, `_key_t` of src/core/index/parameters.h.
-- A double is its IEEE 754 bit pattern, a number below 2 ^ 64, so a memcpy of it is the pattern.
-- The comparisons are IEEE 754's: false on a NaN, by sign and magnitude otherwise, and -0 == +0.
use plin_cloud_edge_device_l.Common.{
  ℕ, ◌+◌, ◌-◌, ◌%◌, ◌^◌, ◌<◌, ◌≤◌, ◌≡◌, Bool, true, false, not, ◌&&◌, arith, ltb, leb, ◌==◌,
  if◌then◌else◌,
}

abbrev pub Double : Type 0
Double = ℕ

unfoldable pub is_nan : Double → Bool
is_nan b = ltb 0x7ff0_0000_0000_0000 (b % 2 ^ 63)

-- The place of a number that is no NaN in the order of all doubles.
unfoldable pub rank : Double → ℕ
rank b = if ltb b (2 ^ 63) then 2 ^ 63 + b else 2 ^ 63 - b % 2 ^ 63

unfoldable pub double_lt : Double → Double → Bool
double_lt a b = not (is_nan a) && (not (is_nan b) && ltb (rank a) (rank b))

unfoldable pub double_le : Double → Double → Bool
double_le a b = not (is_nan a) && (not (is_nan b) && leb (rank a) (rank b))

unfoldable pub double_eq : Double → Double → Bool
double_eq a b = not (is_nan a) && (not (is_nan b) && rank a == rank b)

pub double_lt→lt :
    (a b : Double)
    → double_lt a b ≡ true
    → (is_nan a ≡ false) × (is_nan b ≡ false) × (rank a < rank b)
unfolding double_lt
double_lt→lt a b h = ground arith

pub not_lt→le :
    (a b : Double) → is_nan a ≡ false → is_nan b ≡ false → double_lt a b ≡ false → rank b ≤ rank a
unfolding double_lt
not_lt→le a b p q h = ground arith

pub le→not_lt : (a b : Double) → rank b ≤ rank a → double_lt a b ≡ false
unfolding double_lt
le→not_lt a b h = ground arith

pub nan-double_lt : (a b : Double) → is_nan a ≡ true → double_lt a b ≡ false
unfolding double_lt
nan-double_lt a b h = ground arith

pub double_lt-nan : (a b : Double) → is_nan b ≡ true → double_lt a b ≡ false
unfolding double_lt
double_lt-nan a b h = ground arith

pub double_eq_refl : (a : Double) → is_nan a ≡ false → double_eq a a ≡ true
unfolding double_eq
double_eq_refl a h = ground arith

pub double_eq_sym : (a b : Double) → double_eq a b ≡ double_eq b a
unfolding double_eq
double_eq_sym a b = ground arith

pub double_eq_congr : (a b c : Double) → double_eq a b ≡ true → double_eq a c ≡ double_eq b c
unfolding double_eq
double_eq_congr a b c h = ground arith

pub lt→le : (a b : Double) → double_lt a b ≡ true → double_le a b ≡ true
unfolding double_lt double_le
lt→le a b h = ground arith

pub lt→not_le : (a b : Double) → double_lt a b ≡ true → double_le b a ≡ false
unfolding double_lt double_le
lt→not_le a b h = ground arith

pub le→not_gt : (a b : Double) → double_le a b ≡ true → double_lt b a ≡ false
unfolding double_lt double_le
le→not_gt a b h = ground arith

pub double_le_trans :
    (a b c : Double) → double_le a b ≡ true → double_le b c ≡ true → double_le a c ≡ true
unfolding double_le
double_le_trans a b c h k = ground arith

-- Two numbers of which neither is a NaN are in order one way.
pub not_lt→double_le :
    (a b : Double)
    → is_nan a ≡ false
    → is_nan b ≡ false
    → double_lt a b ≡ false
    → double_le b a ≡ true
unfolding double_lt double_le
not_lt→double_le a b p q h = ground arith

pub double_le_numbers :
    (a b : Double) → double_le a b ≡ true → (is_nan a ≡ false) × (is_nan b ≡ false)
unfolding double_le
double_le_numbers a b h = ground arith

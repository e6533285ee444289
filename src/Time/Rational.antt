-- ===== src/Time/Rational.antt =====
-- `Rational` of crates/contracts/src/lib.rs. Its i64 fields are integers in the range that
-- `try_i64` tests; the i128 intermediates are exact integers.
pub mod Canonical
pub mod Signs
pub mod Lowest
pub mod Normal
pub mod Exact
pub mod Order
use Prim.Native.Nat.{Ordering}
use stitch_editor.Prelude.{ℕ, ◌^◌, Bool, true, false, Option, some, none, ltb, if◌then◌else◌}
use stitch_editor.Prelude.Int.{
  ℤ, pos, negsuc, nat_abs, neg_ℤ, ◌+ℤ◌, ◌-ℤ◌, ◌*ℤ◌, tdiv, ltb_ℤ, ◌==ℤ◌, compare_ℤ,
}
use stitch_editor.Prelude.Result.{Result, ok, err, ◌>>=◌, ok_or}
use stitch_editor.Time.Gcd.{gcd}

pub data TimeError : Type 0 where
  zero_denominator overflow invalid_range invalid_unit non_monotonic_adapted_ticks : TimeError

pub record Rational : Type 0 where
  pub numerator : ℤ
  pub denominator : ℤ

-- `i64::try_from` and, for an unsigned value, `i128::try_from`.
abbrev pub try_i64 : ℤ → Option ℤ
try_i64 (pos n) = if ltb n (2 ^ 63) then some (pos n) else none
try_i64 (negsuc n) = if ltb n (2 ^ 63) then some (negsuc n) else none

abbrev pub try_i128 : ℕ → Option ℤ
try_i128 n = if ltb n (2 ^ 127) then some (pos n) else none

-- The sign moves to the numerator.
abbrev pub positive_denominator : ℤ → ℤ → ℤ × ℤ
positive_denominator n d = if ltb_ℤ d (pos 0) then (neg_ℤ n, neg_ℤ d) else (n, d)

unfoldable pub narrow : ℤ × ℤ → Result TimeError Rational
narrow (n, d) = do
  numerator ← ok_or (try_i64 n) overflow
  denominator ← ok_or (try_i64 d) overflow
  ok (record { numerator = numerator; denominator = denominator })

unfoldable pub normalize : ℤ → ℤ → Result TimeError Rational
normalize n d = do
  divisor ← ok_or (try_i128 (gcd (nat_abs n) (nat_abs d))) overflow
  narrow (positive_denominator (tdiv n divisor) (tdiv d divisor))

unfoldable pub from_i128 : ℤ → ℤ → Result TimeError Rational
from_i128 n d =
    if d ==ℤ pos 0
    then err zero_denominator
    else if n ==ℤ pos 0
    then ok (record { numerator = pos 0; denominator = pos 1 })
    else normalize n d

-- `Rational::new`
unfoldable pub new : ℤ → ℤ → Result TimeError Rational
new numerator denominator = from_i128 numerator denominator

-- The i128 products and sums that the operations form before they normalise.
abbrev pub add_numerator : Rational → Rational → ℤ
add_numerator self other =
    self.numerator *ℤ other.denominator +ℤ other.numerator *ℤ self.denominator

abbrev pub sub_numerator : Rational → Rational → ℤ
sub_numerator self other =
    self.numerator *ℤ other.denominator -ℤ other.numerator *ℤ self.denominator

abbrev pub common_denominator : Rational → Rational → ℤ
common_denominator self other = self.denominator *ℤ other.denominator

unfoldable pub checked_add : Rational → Rational → Result TimeError Rational
checked_add self other = from_i128 (add_numerator self other) (common_denominator self other)

unfoldable pub checked_sub : Rational → Rational → Result TimeError Rational
checked_sub self other = from_i128 (sub_numerator self other) (common_denominator self other)

unfoldable pub checked_mul : Rational → Rational → Result TimeError Rational
checked_mul self other =
    from_i128 (self.numerator *ℤ other.numerator) (common_denominator self other)

unfoldable pub checked_reciprocal : Rational → Result TimeError Rational
checked_reciprocal self = new self.denominator self.numerator

-- `Ord::cmp`, and the tests that `PartialOrd` derives from it.
unfoldable pub cmp : Rational → Rational → Ordering
cmp self other =
    compare_ℤ (self.numerator *ℤ other.denominator) (other.numerator *ℤ self.denominator)

abbrev pub is_lt : Ordering → Bool
is_lt Ordering.lt = true
is_lt Ordering.eq = false
is_lt Ordering.gt = false

abbrev pub is_le : Ordering → Bool
is_le Ordering.lt = true
is_le Ordering.eq = true
is_le Ordering.gt = false

infix 50 ◌<ᵣ◌ ◌≤ᵣ◌
abbrev pub ◌<ᵣ◌ : Rational → Rational → Bool
a <ᵣ b = is_lt (cmp a b)

abbrev pub ◌≤ᵣ◌ : Rational → Rational → Bool
a ≤ᵣ b = is_le (cmp a b)

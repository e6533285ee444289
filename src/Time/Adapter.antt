-- ===== src/Time/Adapter.antt =====
-- The tick adapter of crates/contracts/src/lib.rs: rounding of canonical time to ticks of a unit.
pub mod Rounding
pub mod Absolute
pub mod Sequence
use Prim.Native.Nat.{compare, Ordering}
use mathlib.Core.Option
use stitch_editor.Prelude.{
  ℕ, ◌*◌, ◌+◌, ◌≡◌, Bool, true, false, not, Option, none, some, List, [], ◌∷◌, ◌++◌, ◌==◌,
  if◌then◌else◌,
}
use stitch_editor.Prelude.Int.{
  ℤ, pos, ◌+ℤ◌, ◌*ℤ◌, nat_abs, leb_ℤ, ◌==ℤ◌, compare_ℤ, div_euclid, rem_euclid,
}
use stitch_editor.Prelude.Result.{Result, ok, err, ◌>>=◌, ◌>>◌, fail_if, ok_or}
use stitch_editor.Time.Rational.{
  Rational, TimeError, invalid_range, invalid_unit, overflow, non_monotonic_adapted_ticks, try_i64,
  try_i128, new, checked_sub, ◌≤ᵣ◌, is_le, cmp,
}

pub data RoundingPolicy : Type 0 where
  floor ceil nearest_even : RoundingPolicy

pub data AdapterUnit : Type 0 where
  hns : AdapterUnit
  timescale : ℕ → AdapterUnit
  samples : ℕ → AdapterUnit

abbrev pub rate_of : AdapterUnit → ℕ
rate_of hns = 10_000_000
rate_of (timescale rate) = rate
rate_of (samples rate) = rate

unfoldable pub ticks_per_second : AdapterUnit → Result TimeError ℤ
ticks_per_second self =
    let rate = rate_of self in
    if rate == 0 then err invalid_unit else ok_or (try_i64 (pos rate)) overflow

pub record AdaptedTime : Type 0 where
  pub canonical_time : Rational
  pub unit : AdapterUnit
  pub policy : RoundingPolicy
  pub ticks : ℤ
  pub error : Rational

-- The match on `doubled_remainder.cmp(&denominator)`.
abbrev pub nearest : Ordering → ℤ → ℤ
nearest Ordering.lt quotient = quotient
nearest Ordering.eq quotient =
    if rem_euclid quotient (pos 2) ==ℤ pos 0 then quotient else quotient +ℤ pos 1
nearest Ordering.gt quotient = quotient +ℤ pos 1

abbrev pub round_by : RoundingPolicy → ℤ → ℤ → ℤ → Result TimeError ℤ
round_by floor quotient remainder denominator = ok quotient
round_by ceil quotient remainder denominator =
    ok (quotient +ℤ (if remainder ==ℤ pos 0 then pos 0 else pos 1))
round_by nearest_even quotient remainder denominator = do
  doubled_remainder ← ok_or (try_i128 (nat_abs remainder * 2)) overflow
  ok (nearest (compare_ℤ doubled_remainder denominator) quotient)

-- The remainder is never negative, so the i128 that `checked_mul(2)` tests is its absolute value.
unfoldable pub round_quotient : ℤ → ℤ → RoundingPolicy → Result TimeError ℤ
round_quotient numerator denominator policy =
    round_by policy (div_euclid numerator denominator) (rem_euclid numerator denominator)
      denominator

unfoldable pub adapt_absolute :
    Rational → AdapterUnit → RoundingPolicy → Result TimeError AdaptedTime
adapt_absolute canonical_time unit policy = do
  rate ← ticks_per_second unit
  ticks ← round_quotient (canonical_time.numerator *ℤ rate) canonical_time.denominator policy
  ticks_i64 ← ok_or (try_i64 ticks) overflow
  represented ← new ticks_i64 rate
  error ← checked_sub canonical_time represented
  ok (record {
    canonical_time = canonical_time;
    unit = unit;
    policy = policy;
    ticks = ticks_i64;
    error = error;
  })

-- `is_some_and`
abbrev pub is_some_and {ℓ} : {A : Type ℓ} → Option A → (A → Bool) → Bool
is_some_and none test = false
is_some_and (some a) test = test a

-- `adapted.last()`
abbrev pub last {ℓ} : {A : Type ℓ} → List A → Option A
last [] = none
last (x ∷ []) = some x
last (x ∷ y ∷ ys) = last (y ∷ ys)

-- The `for` loop over the times left, with its variables `previous` and `adapted`.
unfoldable pub adapt_from :
    AdapterUnit
    → RoundingPolicy
    → List Rational
    → Option Rational
    → List AdaptedTime
    → Result TimeError (List AdaptedTime)
adapt_from unit policy [] previous adapted = ok adapted
adapt_from unit policy (time ∷ times) previous adapted = do
  fail_if (is_some_and previous (λ previous_time. time ≤ᵣ previous_time)) invalid_range
  next ← adapt_absolute time unit policy
  fail_if (is_some_and (last adapted) (λ previous_time. leb_ℤ next.ticks previous_time.ticks))
      non_monotonic_adapted_ticks
  adapt_from unit policy times (some time) (adapted ++ next ∷ [])

unfoldable pub adapt_absolute_sequence :
    List Rational → AdapterUnit → RoundingPolicy → Result TimeError (List AdaptedTime)
adapt_absolute_sequence canonical_times unit policy = adapt_from unit policy canonical_times none []

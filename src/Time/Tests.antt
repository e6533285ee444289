-- ===== src/Time/Tests.antt =====
-- Concrete times, and the theorems on them.
use Prim.Native.Nat.{Ordering}
use stitch_editor.Prelude.{◌≡◌, ◌↔◌, ◌≢◌, refl, true, false, ◌&&◌, ◌||◌, arith, none, [], ◌∷◌}
use stitch_editor.Prelude.Int.{ℤ, pos, ◌*ℤ◌, ◌-ℤ◌, div_euclid, tdiv}
use stitch_editor.Prelude.Result.{ok}
use stitch_editor.Time.Gcd.{gcd}
use stitch_editor.Time.Rational.{
  Rational, from_i128, new, normalize, narrow, checked_add, checked_sub, checked_mul, cmp, ◌<ᵣ◌,
  add_numerator, sub_numerator, common_denominator,
}
use stitch_editor.Time.Rational.Canonical.{IsCanonical}
use stitch_editor.Time.Rational.Lowest.{FitsI128}
use stitch_editor.Time.Rational.Exact.{
  IsQuotient, new_iff, checked_add_iff, checked_sub_iff, checked_mul_iff, operands-fit,
}
use stitch_editor.Time.Rational.Order.{cmp-eq_iff, lt_trans}
use stitch_editor.Time.Range.{TimeRange, contains, contains_split}
use stitch_editor.Time.Adapter.{
  AdaptedTime, timescale, floor, nearest_even, ticks_per_second, round_quotient, adapt_absolute,
  adapt_absolute_sequence,
}
use stitch_editor.Time.Adapter.Rounding.{Rounds, round_quotient-Rounds}
use stitch_editor.Time.Adapter.Absolute.{IsAdapted, adapt_absolute-IsAdapted}
use stitch_editor.Time.Adapter.Sequence.{Adapts, adapt_absolute_sequence_iff}

abbrev half : Rational
half = record { numerator = pos 1; denominator = pos 2 }

abbrev one : Rational
one = record { numerator = pos 1; denominator = pos 1 }

abbrev two : Rational
two = record { numerator = pos 2; denominator = pos 1 }

half-IsCanonical : IsCanonical half
unfolding gcd
half-IsCanonical = record {
  numerator_fits = omega arith;
  denominator_fits = omega arith;
  denominator_pos = omega arith;
  coprime = refl;
}

one-IsCanonical : IsCanonical one
unfolding gcd
one-IsCanonical = record {
  numerator_fits = omega arith;
  denominator_fits = omega arith;
  denominator_pos = omega arith;
  coprime = refl;
}

two-IsCanonical : IsCanonical two
unfolding gcd
two-IsCanonical = record {
  numerator_fits = omega arith;
  denominator_fits = omega arith;
  denominator_pos = omega arith;
  coprime = refl;
}

new_iff_example :
    (new (pos 2) (pos 4) ≡ ok half)
    ↔ ((pos 4 ≢ pos 0) × IsCanonical half × IsQuotient half (pos 2) (pos 4))
new_iff_example = new_iff (pos 2) (pos 4) half (omega arith) (omega arith)

checked_add_iff_example :
    (checked_add half half ≡ ok one)
    ↔ (IsCanonical one × IsQuotient one (add_numerator half half) (common_denominator half half))
checked_add_iff_example = checked_add_iff half half half-IsCanonical half-IsCanonical one

checked_sub_iff_example :
    (checked_sub one half ≡ ok half)
    ↔ (IsCanonical half × IsQuotient half (sub_numerator one half) (common_denominator one half))
checked_sub_iff_example = checked_sub_iff one half one-IsCanonical half-IsCanonical half

checked_mul_iff_example : (checked_mul half two ≡ ok one) ↔ (
    IsCanonical one
    × IsQuotient one (half.numerator *ℤ two.numerator) (half.denominator *ℤ two.denominator))
checked_mul_iff_example = checked_mul_iff half two half-IsCanonical two-IsCanonical one

operands-fit_example :
    FitsI128 (add_numerator half two)
    × FitsI128 (sub_numerator half two)
    × FitsI128 (common_denominator half two)
    × FitsI128 (half.numerator *ℤ two.numerator)
operands-fit_example = operands-fit half two half-IsCanonical two-IsCanonical

cmp-eq_iff_example : (cmp half one ≡ Ordering.eq) ↔ (half ≡ one)
cmp-eq_iff_example = cmp-eq_iff half one half-IsCanonical one-IsCanonical

lt_trans_example : (half <ᵣ two) ≡ true
unfolding cmp ◌*ℤ◌
lt_trans_example = lt_trans half one two half-IsCanonical one-IsCanonical two-IsCanonical refl refl

contains_split_example :
    (whole : TimeRange) × (stitch_editor.Time.Range.new half two ≡ ok whole)
    × (contains whole one ≡ (
        contains (record { start = half; end = one }) one
        || contains (record { start = one; end = two }) one))
    × ((contains (record { start = half; end = one }) one
          && contains (record { start = one; end = two }) one)
        ≡ false)
unfolding cmp stitch_editor.Time.Range.new ◌*ℤ◌
contains_split_example =
    contains_split half one two one half-IsCanonical one-IsCanonical two-IsCanonical one-IsCanonical
      refl refl

round_quotient-Rounds_example :
    (t : ℤ) × (round_quotient (pos 7) (pos 2) nearest_even ≡ ok t)
    × Rounds nearest_even (pos 7) (pos 2) t
round_quotient-Rounds_example =
    round_quotient-Rounds nearest_even (pos 7) 2 (omega arith) (omega arith)

abbrev half_at_3 : AdaptedTime
half_at_3 = record {
  canonical_time = half;
  unit = timescale 3;
  policy = floor;
  ticks = pos 1;
  error = record { numerator = pos 1; denominator = pos 6 };
}

adapts_half : adapt_absolute half (timescale 3) floor ≡ ok half_at_3
unfolding adapt_absolute ticks_per_second round_quotient new from_i128 normalize narrow checked_sub
    gcd div_euclid ◌*ℤ◌ tdiv ◌-ℤ◌
adapts_half = refl

adapt_absolute-IsAdapted_example : IsAdapted half (timescale 3) floor half_at_3
adapt_absolute-IsAdapted_example =
    adapt_absolute-IsAdapted half (timescale 3) floor half-IsCanonical adapts_half

adapt_absolute_sequence_iff_example :
    (adapt_absolute_sequence (half ∷ []) (timescale 3) floor ≡ ok (half_at_3 ∷ []))
    ↔ Adapts (timescale 3) floor none none (half ∷ []) (half_at_3 ∷ [])
adapt_absolute_sequence_iff_example =
    adapt_absolute_sequence_iff (half ∷ []) (timescale 3) floor (half_at_3 ∷ [])

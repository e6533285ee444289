-- ===== src/Time/Rational/Canonical.antt =====
-- The invariant of a `Rational` and the conversion to i64.
use stitch_editor.Prelude.{◌^◌, ◌≤◌, ◌<◌, ◌≡◌, some, arith}
use stitch_editor.Prelude.Int.{ℤ, pos, negsuc, pos_part, neg_part, nat_abs, ◌<ℤ◌}
use stitch_editor.Time.Gcd.{gcd}
use stitch_editor.Time.Rational.{Rational, try_i64}

-- The range of an i64.
abbrev pub FitsI64 : ℤ → Type 0
FitsI64 z = (neg_part z ≤ 2 ^ 63) × (pos_part z < 2 ^ 63)

-- What the constructors establish: lowest terms, a positive denominator, fields in range.
pub record IsCanonical (r : Rational) : Type 0 where
  pub numerator_fits : FitsI64 r.numerator
  pub denominator_fits : FitsI64 r.denominator
  pub denominator_pos : pos 0 <ℤ r.denominator
  pub coprime : gcd (nat_abs r.numerator) (nat_abs r.denominator) ≡ 1

pub try_i64-some : (z w : ℤ) → try_i64 z ≡ some w → (w ≡ z) × FitsI64 z
try_i64-some (pos n) w h = ground arith
try_i64-some (negsuc n) w h = ground arith

pub try_i64-fits : (z : ℤ) → FitsI64 z → try_i64 z ≡ some z
try_i64-fits (pos n) h = ground arith
try_i64-fits (negsuc n) h = ground arith

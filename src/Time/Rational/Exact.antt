-- ===== src/Time/Rational/Exact.antt =====
-- The checked operations of `Rational` against the exact results, and their i128 intermediates.
use native.Mathlib.Nat.{mul-le-mul, mul-pos}
use stitch_editor.Prelude.{ℕ, ◌+◌, ◌*◌, ◌-◌, ◌^◌, ◌≤◌, ◌<◌, ◌≡◌, ◌≢◌, ◌↔◌, arith, ap, sym, subst}
use stitch_editor.Prelude.Int.{ℤ, pos, nat_abs, ◌+ℤ◌, ◌-ℤ◌, ◌*ℤ◌, ◌<ℤ◌, nat_abs-*ℤ}
use stitch_editor.Prelude.Result.{ok}
use stitch_editor.Time.Rational.{
  Rational, from_i128, new, checked_add, checked_sub, checked_mul, add_numerator, sub_numerator,
  common_denominator,
}
use stitch_editor.Time.Rational.Canonical.{FitsI64, IsCanonical}
use stitch_editor.Time.Rational.Lowest.{FitsI128}
use stitch_editor.Time.Rational.Normal.{from_i128_iff}

-- `r` is the fraction n / d.
abbrev pub IsQuotient : Rational → ℤ → ℤ → Type 0
IsQuotient r n d = r.numerator *ℤ d ≡ n *ℤ r.denominator

nat_abs-+ℤ : (a b : ℤ) → nat_abs (a +ℤ b) ≤ nat_abs a + nat_abs b
unfolding ◌+ℤ◌
nat_abs-+ℤ a b = ground arith

nat_abs--ℤ : (a b : ℤ) → nat_abs (a -ℤ b) ≤ nat_abs a + nat_abs b
unfolding ◌-ℤ◌
nat_abs--ℤ a b = ground arith

fits-nat_abs : (z : ℤ) → FitsI64 z → nat_abs z ≤ 2 ^ 63
fits-nat_abs z h = ground arith

positive_fits-nat_abs : (z : ℤ) → FitsI64 z → pos 0 <ℤ z → nat_abs z ≤ 2 ^ 63 - 1
positive_fits-nat_abs z h p = ground arith

pub abs_pos : (z : ℤ) → pos 0 <ℤ z → 0 < nat_abs z
abs_pos z h = ground arith

product_bound : (a b : ℤ) {x y : ℕ} → nat_abs a ≤ x → nat_abs b ≤ y → nat_abs (a *ℤ b) ≤ x * y
product_bound a b {x} {y} ha hb = subst (λ t. t ≤ x * y) (sym (nat_abs-*ℤ a b)) (mul-le-mul ha hb)

module _ (a b : Rational) (ca : IsCanonical a) (cb : IsCanonical b) where
  cross_left : nat_abs (a.numerator *ℤ b.denominator) ≤ 2 ^ 63 * (2 ^ 63 - 1)
  cross_left =
      product_bound a.numerator b.denominator (fits-nat_abs _ ca.numerator_fits)
        (positive_fits-nat_abs _ cb.denominator_fits cb.denominator_pos)

  cross_right : nat_abs (b.numerator *ℤ a.denominator) ≤ 2 ^ 63 * (2 ^ 63 - 1)
  cross_right =
      product_bound b.numerator a.denominator (fits-nat_abs _ cb.numerator_fits)
        (positive_fits-nat_abs _ ca.denominator_fits ca.denominator_pos)

  common_bound : nat_abs (common_denominator a b) ≤ (2 ^ 63 - 1) * (2 ^ 63 - 1)
  common_bound =
      product_bound a.denominator b.denominator
        (positive_fits-nat_abs _ ca.denominator_fits ca.denominator_pos)
        (positive_fits-nat_abs _ cb.denominator_fits cb.denominator_pos)

  common_nonzero : common_denominator a b ≢ pos 0
  common_nonzero e = absurd (
      omega (
        arith,
        ap nat_abs e,
        nat_abs-*ℤ a.denominator b.denominator,
        mul-pos (abs_pos a.denominator ca.denominator_pos)
            (abs_pos b.denominator cb.denominator_pos),
      ))

  -- For canonical operands, the i128 sums, differences and products that the operations form do
  -- not overflow.
  pub operands-fit :
      FitsI128 (add_numerator a b)
      × FitsI128 (sub_numerator a b)
      × FitsI128 (common_denominator a b)
      × FitsI128 (a.numerator *ℤ b.numerator)
  operands-fit = (
    omega (arith, cross_left, cross_right, nat_abs-+ℤ _ (b.numerator *ℤ a.denominator)),
    omega (arith, cross_left, cross_right, nat_abs--ℤ _ (b.numerator *ℤ a.denominator)),
    omega (arith, common_bound),
    omega (
      arith,
      product_bound a.numerator b.numerator (fits-nat_abs _ ca.numerator_fits)
          (fits-nat_abs _ cb.numerator_fits),
    ),
  )

  -- For canonical operands, checked_add returns r exactly when r is the canonical form of their
  -- sum; so it fails only where that form does not fit.
  pub checked_add_iff :
      (r : Rational)
      → (checked_add a b ≡ ok r)
        ↔ (IsCanonical r × IsQuotient r (add_numerator a b) (common_denominator a b))
  unfolding checked_add
  checked_add_iff r = from_i128_iff _ _ r common_nonzero operands-fit.2

  -- For canonical operands, checked_sub returns r exactly when r is the canonical form of their
  -- difference.
  pub checked_sub_iff :
      (r : Rational)
      → (checked_sub a b ≡ ok r)
        ↔ (IsCanonical r × IsQuotient r (sub_numerator a b) (common_denominator a b))
  unfolding checked_sub
  checked_sub_iff r = from_i128_iff _ _ r common_nonzero operands-fit.2

  -- For canonical operands, checked_mul returns r exactly when r is the canonical form of their
  -- product.
  pub checked_mul_iff :
      (r : Rational)
      → (checked_mul a b ≡ ok r) ↔ (
          IsCanonical r
          × IsQuotient r (a.numerator *ℤ b.numerator) (a.denominator *ℤ b.denominator))
  unfolding checked_mul
  checked_mul_iff r = from_i128_iff _ _ r common_nonzero operands-fit.2

from_i128-zero : (n : ℤ) {r : Rational} → from_i128 n (pos 0) ≡ ok r → ⊥
unfolding from_i128
from_i128-zero n h = cc

-- For i64 arguments, new returns r exactly when the denominator is not zero and r is the canonical
-- form of numerator / denominator.
pub new_iff :
    (n d : ℤ) (r : Rational)
    → FitsI64 n
    → FitsI64 d
    → (new n d ≡ ok r) ↔ ((d ≢ pos 0) × IsCanonical r × IsQuotient r n d)
unfolding new
new_iff n d r hn hd = (
  λ h.
      let nonzero : d ≢ pos 0 = λ e. zero_fails n r (subst (λ z. from_i128 n z ≡ ok r) e h) in
      let found = (from_i128_iff n d r nonzero (fits d hd)).0 h in (nonzero, found.0, found.1),
  λ h. (from_i128_iff n d r h.0 (fits d hd)).1 (h.1, h.2),
)
  where
    fits : (z : ℤ) → FitsI64 z → FitsI128 z
    fits z h = ground arith

    zero_fails : (m : ℤ) (q : Rational) → from_i128 m (pos 0) ≡ ok q → ⊥
    zero_fails m q e = from_i128-zero m e

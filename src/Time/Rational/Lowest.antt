-- ===== src/Time/Rational/Lowest.antt =====
-- The pair that `from_i128` narrows, and lowest terms.
use mathlib.Core.Path.{◌≡⟨◌⟩◌, ◌∎}
use native.Mathlib.Nat.{div-mul_cancel}
use Prim.Native.Nat.{◌∣◌}
use stitch_editor.Prelude.{ℕ, ◌/◌, ◌^◌, ◌<◌, ◌≡◌, refl, sym, ap, inl, inr, arith, Bool-cases}
use stitch_editor.Prelude.Int.{ℤ, pos, nat_abs, ◌*ℤ◌, ◌<ℤ◌, tdiv, ltb_ℤ}
use stitch_editor.Prelude.Result.{ok}
use stitch_editor.Time.Gcd.{gcd, gcd-dvd, gcd-div-div}
use stitch_editor.Time.Rational.{Rational, positive_denominator, narrow}
use stitch_editor.Time.Rational.Canonical.{FitsI64, IsCanonical, try_i64-some, try_i64-fits}
use stitch_editor.Time.Rational.Signs.{tdiv-*ℤ, nat_abs-tdiv, neg_ℤ-*ℤ_both, *ℤ_shuffle}

-- The pair that `normalize` narrows, and what is known of it.
module _ (n d : ℤ) where
  abbrev pub lowest : ℤ × ℤ
  lowest =
      let g : ℕ = gcd (nat_abs n) (nat_abs d) in
      positive_denominator (tdiv n (pos g)) (tdiv d (pos g))

module _ (n d : ℤ) (nonzero : 0 < nat_abs d) where
  abbrev pub g : ℕ
  g = gcd (nat_abs n) (nat_abs d)

  pub quotient_pos : 0 < nat_abs d / g
  quotient_pos = grind (arith, div-mul_cancel g (gcd-dvd (nat_abs n) (nat_abs d)).1)

  pub lowest-nat_abs :
      (nat_abs (lowest n d).0 ≡ nat_abs n / g) × (nat_abs (lowest n d).1 ≡ nat_abs d / g)
  lowest-nat_abs = ground (arith, nat_abs-tdiv n g, nat_abs-tdiv d g)

  pub lowest-pos : pos 0 <ℤ (lowest n d).1
  lowest-pos = ground (arith, quotient_pos, nat_abs-tdiv d g)

  pub lowest-coprime : gcd (nat_abs (lowest n d).0) (nat_abs (lowest n d).1) ≡ 1
  lowest-coprime =
      rw (lowest-nat_abs.0, lowest-nat_abs.1) (gcd-div-div (nat_abs n) (nat_abs d) nonzero)

  pub tdiv-cross : tdiv n (pos g) *ℤ d ≡ n *ℤ tdiv d (pos g)
  tdiv-cross =
      tdiv n (pos g) *ℤ d
      ≡⟨ ap (◌*ℤ◌ (tdiv n (pos g))) (sym (tdiv-*ℤ d g divides.1)) ⟩
        tdiv n (pos g) *ℤ (tdiv d (pos g) *ℤ pos g)
      ≡⟨ *ℤ_shuffle (tdiv n (pos g)) (tdiv d (pos g)) (pos g) ⟩
        tdiv n (pos g) *ℤ pos g *ℤ tdiv d (pos g)
      ≡⟨ ap (λ z. z *ℤ tdiv d (pos g)) (tdiv-*ℤ n g divides.0) ⟩ n *ℤ tdiv d (pos g) ∎
    where
      divides : (g ∣ nat_abs n) × (g ∣ nat_abs d)
      divides = gcd-dvd (nat_abs n) (nat_abs d)

  pub lowest-cross : (lowest n d).0 *ℤ d ≡ n *ℤ (lowest n d).1
  lowest-cross = elim (Bool-cases (ltb_ℤ (tdiv d (pos g)) (pos 0))) [
    | inl flip ↦ rw flip (neg_ℤ-*ℤ_both (tdiv n (pos g)) d n (tdiv d (pos g)) tdiv-cross)
    | inr keep ↦ rw keep tdiv-cross
  ]

pub narrow-ok :
    (p : ℤ × ℤ) {r : Rational}
    → narrow p ≡ ok r
    → (r ≡ record { numerator = p.0; denominator = p.1 }) × FitsI64 p.0 × FitsI64 p.1
unfolding narrow
narrow-ok (n, d) h = ground (arith, try_i64-some n, try_i64-some d)

pub narrow-fits :
    (p : ℤ × ℤ)
    → FitsI64 p.0
    → FitsI64 p.1
    → narrow p ≡ ok (record { numerator = p.0; denominator = p.1 })
unfolding narrow
narrow-fits (n, d) hn hd = rw (try_i64-fits n hn, try_i64-fits d hd)

abbrev pub zero_rational : Rational
zero_rational = record { numerator = pos 0; denominator = pos 1 }

pub zero_rational-IsCanonical : IsCanonical zero_rational
unfolding gcd
zero_rational-IsCanonical = record {
  numerator_fits = omega arith;
  denominator_fits = omega arith;
  denominator_pos = omega arith;
  coprime = refl;
}

-- An i128 that `from_i128` may be given: its absolute value is below 2 ^ 127.
abbrev pub FitsI128 : ℤ → Type 0
FitsI128 z = nat_abs z < 2 ^ 127

-- ===== src/Time/Rational/Normal.antt =====
-- Normalisation of a rational by `from_i128`.
use mathlib.Core.Path.{◌≡⟨◌⟩◌, ◌∎}
use native.Mathlib.Nat.{le_of_dvd}
use stitch_editor.Prelude.{
  ℕ, ◌*◌, ◌≤◌, ◌<◌, ◌≡◌, refl, sym, ap, subst, ◌∙◌, ◌≢◌, ◌↔◌, inl, inr, true, false, arith,
  Bool-cases,
}
use stitch_editor.Prelude.Int.{ℤ, pos, nat_abs, ◌*ℤ◌, ◌<ℤ◌, ◌==ℤ◌, nat_abs-*ℤ}
use stitch_editor.Prelude.Result.{Result, ok}
use stitch_editor.Time.Gcd.{gcd, gcd-dvd, coprime_unique}
use stitch_editor.Time.Rational.{Rational, TimeError, narrow, normalize, from_i128}
use stitch_editor.Time.Rational.Canonical.{FitsI64, IsCanonical}
use stitch_editor.Time.Rational.Signs.{*ℤ_cancel, *ℤ_regroup}
use stitch_editor.Time.Rational.Lowest.{
  lowest, lowest-pos, lowest-coprime, lowest-cross, narrow-ok, narrow-fits, zero_rational,
  zero_rational-IsCanonical, FitsI128,
}

gcd-le : (a b : ℕ) → 0 < b → gcd a b ≤ b
gcd-le a b h = le_of_dvd h (gcd-dvd a b).1

normalize-lowest : (n d : ℤ) → 0 < nat_abs d → FitsI128 d → normalize n d ≡ narrow (lowest n d)
unfolding normalize
normalize-lowest n d nonzero fits = ground (arith, gcd-le (nat_abs n) (nat_abs d) nonzero)

normalize-ok : (n d : ℤ) {r : Rational} → normalize n d ≡ ok r → narrow (lowest n d) ≡ ok r
unfolding normalize
normalize-ok n d h = ground arith

nonzero_abs : (z : ℤ) → (z ==ℤ pos 0) ≡ false → 0 < nat_abs z
nonzero_abs z h = ground arith

lowest-IsCanonical :
    (n d : ℤ)
    → 0 < nat_abs d
    → FitsI64 (lowest n d).0
    → FitsI64 (lowest n d).1
    → IsCanonical (record { numerator = (lowest n d).0; denominator = (lowest n d).1 })
lowest-IsCanonical n d nonzero hn hd = record {
  numerator_fits = hn;
  denominator_fits = hd;
  denominator_pos = lowest-pos n d nonzero;
  coprime = lowest-coprime n d nonzero;
}

-- Two pairs in lowest terms and of one value are the same.
pub lowest_unique :
    (a b c e : ℤ)
    → pos 0 <ℤ b
    → pos 0 <ℤ e
    → gcd (nat_abs a) (nat_abs b) ≡ 1
    → gcd (nat_abs c) (nat_abs e) ≡ 1
    → a *ℤ e ≡ c *ℤ b
    → (a ≡ c) × (b ≡ e)
lowest_unique a b c e hb he left right cross = (*ℤ_cancel a c b (ground arith) same_num, same)
  where
    absolute : nat_abs a * nat_abs e ≡ nat_abs c * nat_abs b
    absolute = rw (← nat_abs-*ℤ a e, ← nat_abs-*ℤ c b) (ap nat_abs cross)

    same_abs : nat_abs b ≡ nat_abs e
    same_abs =
        (coprime_unique (nat_abs a) (nat_abs b) (nat_abs c) (nat_abs e) (ground arith) left right
          absolute).1

    same : b ≡ e
    same = ground (arith, same_abs)

    same_num : a *ℤ b ≡ c *ℤ b
    same_num = rw same (cross ∙ ap (◌*ℤ◌ c) same)

normalize_sound :
    (n d : ℤ) {r : Rational}
    → 0 < nat_abs d
    → normalize n d ≡ ok r
    → IsCanonical r × (r.numerator *ℤ d ≡ n *ℤ r.denominator)
normalize_sound n d {r} nonzero h =
    let parts = narrow-ok (lowest n d) (normalize-ok n d h) in
    subst (λ q. IsCanonical q × (q.numerator *ℤ d ≡ n *ℤ q.denominator)) (sym parts.0)
      (lowest-IsCanonical n d nonzero parts.1 parts.2, lowest-cross n d nonzero)

normalize_complete :
    (n d : ℤ) (r : Rational)
    → 0 < nat_abs d
    → FitsI128 d
    → IsCanonical r
    → r.numerator *ℤ d ≡ n *ℤ r.denominator
    → normalize n d ≡ ok r
normalize_complete n d r nonzero fits canonical cross =
    rw (normalize-lowest n d nonzero fits) (narrow-at (lowest n d) same.0 same.1)
  where
    l0 : ℤ
    l0 = (lowest n d).0

    l1 : ℤ
    l1 = (lowest n d).1

    crossed : r.numerator *ℤ l1 ≡ l0 *ℤ r.denominator
    crossed = *ℤ_cancel _ _ d nonzero (
        r.numerator *ℤ l1 *ℤ d
        ≡⟨ *ℤ_regroup r.numerator l1 d ⟩ r.numerator *ℤ d *ℤ l1
        ≡⟨ ap (λ z. z *ℤ l1) cross ⟩ n *ℤ r.denominator *ℤ l1
        ≡⟨ *ℤ_regroup n r.denominator l1 ⟩ n *ℤ l1 *ℤ r.denominator
        ≡⟨ ap (λ z. z *ℤ r.denominator) (sym (lowest-cross n d nonzero)) ⟩ l0 *ℤ d *ℤ r.denominator
        ≡⟨ *ℤ_regroup l0 d r.denominator ⟩ l0 *ℤ r.denominator *ℤ d ∎)

    same : (r.numerator ≡ l0) × (r.denominator ≡ l1)
    same =
        lowest_unique r.numerator r.denominator l0 l1 canonical.denominator_pos
          (lowest-pos n d nonzero) canonical.coprime (lowest-coprime n d nonzero) crossed

    narrow-at : (p : ℤ × ℤ) → r.numerator ≡ p.0 → r.denominator ≡ p.1 → narrow p ≡ ok r
    narrow-at p e0 e1 =
        narrow-fits p (subst FitsI64 e0 canonical.numerator_fits)
          (subst FitsI64 e1 canonical.denominator_fits)
        ∙ ap ok (λ i. record { numerator = sym e0 i; denominator = sym e1 i })

zero_times : (n d : ℤ) → (n ==ℤ pos 0) ≡ true → n *ℤ d ≡ pos 0
unfolding ◌*ℤ◌
zero_times n d h = ground arith

zero_sound :
    (n d : ℤ) {r : Rational}
    → (n ==ℤ pos 0) ≡ true
    → ◌≡◌ {A = Result TimeError Rational} (ok zero_rational) (ok r)
    → IsCanonical r × (r.numerator *ℤ d ≡ n *ℤ r.denominator)
zero_sound n d {r = r} zero_n h =
    subst (λ q. IsCanonical q × (q.numerator *ℤ d ≡ n *ℤ q.denominator)) same
      (zero_rational-IsCanonical, zero_times (pos 0) d refl ∙ sym (zero_times n (pos 1) zero_n))
  where
    same : zero_rational ≡ r
    same = cc

zero-complete :
    (n d : ℤ) (r : Rational)
    → 0 < nat_abs d
    → (n ==ℤ pos 0) ≡ true
    → IsCanonical r
    → r.numerator *ℤ d ≡ n *ℤ r.denominator
    → ◌≡◌ {A = Result TimeError Rational} (ok zero_rational) (ok r)
zero-complete n d r nonzero zero_n canonical cross =
    ap ok (λ i. record { numerator = same.0 i; denominator = same.1 i })
  where
    vanishes : pos 0 ≡ r.numerator
    vanishes =
        *ℤ_cancel (pos 0) r.numerator d nonzero
          (zero_times (pos 0) d refl ∙ sym (zero_times n r.denominator zero_n) ∙ sym cross)

    crossed : pos 0 *ℤ r.denominator ≡ r.numerator *ℤ pos 1
    crossed =
        zero_times (pos 0) r.denominator refl
        ∙ sym (zero_times r.numerator (pos 1) (subst (λ z. (z ==ℤ pos 0) ≡ true) vanishes refl))

    same : (pos 0 ≡ r.numerator) × (pos 1 ≡ r.denominator)
    same =
        lowest_unique (pos 0) (pos 1) r.numerator r.denominator
          zero_rational-IsCanonical.denominator_pos canonical.denominator_pos
          zero_rational-IsCanonical.coprime canonical.coprime crossed

-- Any result is canonical and of the value of the fraction that was given.
pub from_i128_sound :
    (n d : ℤ) {r : Rational}
    → from_i128 n d ≡ ok r
    → IsCanonical r × (r.numerator *ℤ d ≡ n *ℤ r.denominator)
unfolding from_i128
from_i128_sound n d {r} h = elim (Bool-cases (d ==ℤ pos 0)) [
  | inl zero_d ↦ cc (rw zero_d at h)
  | inr keep ↦ elim (Bool-cases (n ==ℤ pos 0)) [
    | inl zero_n ↦ zero_sound n d zero_n (rw (keep, zero_n) at h)
    | inr other ↦ normalize_sound n d (nonzero_abs d keep) (rw (keep, other) at h)
  ]
]

-- A canonical rational of that value is the result: `from_i128` fails only where none exists.
pub from_i128_complete :
    (n d : ℤ) (r : Rational)
    → d ≢ pos 0
    → FitsI128 d
    → IsCanonical r
    → r.numerator *ℤ d ≡ n *ℤ r.denominator
    → from_i128 n d ≡ ok r
unfolding from_i128
from_i128_complete n d r nonzero fits canonical cross = elim (Bool-cases (d ==ℤ pos 0)) [
  | inl zero_d ↦ absurd (nonzero (ground arith))
  | inr keep ↦ elim (Bool-cases (n ==ℤ pos 0)) [
    | inl zero_n ↦
        rw (keep, zero_n) (zero-complete n d r (nonzero_abs d keep) zero_n canonical cross)
    | inr other ↦
        rw (keep, other) (normalize_complete n d r (nonzero_abs d keep) fits canonical cross)
  ]
]

-- Both at once.
pub from_i128_iff :
    (n d : ℤ) (r : Rational)
    → d ≢ pos 0
    → FitsI128 d
    → (from_i128 n d ≡ ok r) ↔ (IsCanonical r × (r.numerator *ℤ d ≡ n *ℤ r.denominator))
from_i128_iff n d r nonzero fits =
    (from_i128_sound n d, λ h. from_i128_complete n d r nonzero fits h.0 h.1)

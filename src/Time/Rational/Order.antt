-- ===== src/Time/Rational/Order.antt =====
-- The order that `Rational::cmp` gives.
use Prim.Native.Nat.{Ordering}
use native.Mathlib.Nat.{mul-lt-mul_of_pos_right, lt_of_mul-lt-mul_right}
use stitch_editor.Prelude.{ℕ, ◌+◌, ◌*◌, ◌<◌, ◌≡◌, ◌↔◌, true, not, false, arith, subst}
use stitch_editor.Prelude.Int.{
  ℤ, pos, negsuc, pos_part, neg_part, ◌*ℤ◌, ◌<ℤ◌, product_laws, eq_of_parts,
}
use stitch_editor.Time.Rational.{Rational, cmp, ◌<ᵣ◌, ◌≤ᵣ◌}
use stitch_editor.Time.Rational.Canonical.{IsCanonical}
use stitch_editor.Time.Rational.Normal.{lowest_unique}

-- The value of `a` is below that of `b`.
abbrev pub Below : Rational → Rational → Type 0
Below a b = a.numerator *ℤ b.denominator <ℤ b.numerator *ℤ a.denominator

pub lt→Below : (a b : Rational) → (a <ᵣ b) ≡ true → Below a b
unfolding cmp
lt→Below a b h = ground arith

pub Below→lt : (a b : Rational) → Below a b → (a <ᵣ b) ≡ true
unfolding cmp
Below→lt a b h = ground arith

pub le-not-lt : (a b : Rational) → (a ≤ᵣ b) ≡ not (b <ᵣ a)
unfolding cmp
le-not-lt a b = ground arith

cleared :
    (a a' b c c' d e e' f : ℕ)
    → 0 < b
    → 0 < f
    → a * d + c' * b < c * b + a' * d
    → c * f + e' * d < e * d + c' * f
    → a * f + e' * b < e * b + a' * f
cleared a a' b c c' d e e' f hb hf p q =
    lt_of_mul-lt-mul_right d
      (omega (arith, mul-lt-mul_of_pos_right p hf, mul-lt-mul_of_pos_right q hb))

scaled_trans :
    (a b c d e f : ℤ)
    → pos 0 <ℤ b
    → pos 0 <ℤ d
    → pos 0 <ℤ f
    → a *ℤ d <ℤ c *ℤ b
    → c *ℤ f <ℤ e *ℤ d
    → a *ℤ f <ℤ e *ℤ b
scaled_trans a (negsuc b) c d e f hb hd hf p q = absurd (omega arith)
scaled_trans a (pos b) c (negsuc d) e f hb hd hf p q = absurd (omega arith)
scaled_trans a (pos b) c (pos d) e (negsuc f) hb hd hf p q = absurd (omega arith)
scaled_trans a (pos b) c (pos d) e (pos f) hb hd hf p q = simp product_laws (
    omega (
      arith,
      cleared (pos_part a) (neg_part a) b (pos_part c) (neg_part c) d (pos_part e) (neg_part e) f
          (omega arith) (omega arith) (omega (arith, simp product_laws at p))
          (omega (arith, simp product_laws at q)),
    ))

-- On canonical rationals, the order that cmp gives is transitive.
pub lt_trans :
    (a b c : Rational)
    → IsCanonical a
    → IsCanonical b
    → IsCanonical c
    → (a <ᵣ b) ≡ true
    → (b <ᵣ c) ≡ true
    → (a <ᵣ c) ≡ true
lt_trans a b c ca cb cc p q = Below→lt a c (
    scaled_trans a.numerator a.denominator b.numerator b.denominator c.numerator c.denominator
      ca.denominator_pos cb.denominator_pos cc.denominator_pos (lt→Below a b p) (lt→Below b c q))

pub lt_irrefl : (a : Rational) → (a <ᵣ a) ≡ false
unfolding cmp
lt_irrefl a = ground arith

cmp_self : (a : Rational) → cmp a a ≡ Ordering.eq
unfolding cmp
cmp_self a = ground arith

-- On canonical rationals, cmp says equal exactly where they are the same.
pub cmp-eq_iff :
    (a b : Rational) → IsCanonical a → IsCanonical b → (cmp a b ≡ Ordering.eq) ↔ (a ≡ b)
unfolding cmp
cmp-eq_iff a b ca cb = (
  λ h.
      let same =
        lowest_unique a.numerator a.denominator b.numerator b.denominator ca.denominator_pos
          cb.denominator_pos ca.coprime cb.coprime (eq_of_parts _ _ (ground arith)) in
      λ i. record { numerator = same.0 i; denominator = same.1 i },
  λ e. subst (λ z. cmp a z ≡ Ordering.eq) e (cmp_self a),
)

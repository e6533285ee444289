-- ===== src/Time/Rational/Signs.antt =====
-- Quotients, signs and cancellation of the integers that `from_i128` handles.
use native.Mathlib.Nat.{div-mul_cancel, eq_of_mul-eq-mul_right, zero-lt-suc}
use Prim.Native.Nat.{◌∣◌}
use stitch_editor.Prelude.{ℕ, zero, suc, ◌+◌, ◌*◌, ◌/◌, ◌<◌, ◌≡◌, refl, ap, arith}
use stitch_editor.Prelude.Int.{
  ℤ, pos, negsuc, pos_part, neg_part, nat_abs, neg_ℤ, ◌*ℤ◌, ◌-ℤ◌, -ℤ_parts, tdiv, product_laws,
  *ℤ-pos_cancel, eq_of_parts,
}

pub tdiv-*ℤ : (z : ℤ) (g : ℕ) → g ∣ nat_abs z → tdiv z (pos g) *ℤ pos g ≡ z
unfolding tdiv ◌*ℤ◌
tdiv-*ℤ (pos n) g h = ap pos (div-mul_cancel g h)
tdiv-*ℤ (negsuc n) g h = back (suc n / g) (div-mul_cancel g h)
  where
    back : (q : ℕ) → q * g ≡ suc n → neg_ℤ (pos q) *ℤ pos g ≡ negsuc n
    back zero e = absurd (omega arith)
    back (suc q) e = ap (λ k. neg_ℤ (pos k)) e

pub nat_abs-tdiv : (z : ℤ) (g : ℕ) → nat_abs (tdiv z (pos g)) ≡ nat_abs z / g
unfolding tdiv
nat_abs-tdiv (pos n) g = refl
nat_abs-tdiv (negsuc n) g = ground arith

pub *ℤ_shuffle : (a b c : ℤ) → a *ℤ (b *ℤ c) ≡ a *ℤ c *ℤ b
*ℤ_shuffle a b c = eq_of_parts _ _ (simp product_laws (omega arith))

pub neg_ℤ-*ℤ_left : (a b : ℤ) → neg_ℤ a *ℤ b ≡ neg_ℤ (a *ℤ b)
unfolding ◌*ℤ◌
neg_ℤ-*ℤ_left a b = ground arith

pub neg_ℤ-*ℤ_right : (a b : ℤ) → a *ℤ neg_ℤ b ≡ neg_ℤ (a *ℤ b)
unfolding ◌*ℤ◌
neg_ℤ-*ℤ_right a b = ground arith

pub neg_ℤ-*ℤ_both : (a b c d : ℤ) → a *ℤ b ≡ c *ℤ d → neg_ℤ a *ℤ b ≡ c *ℤ neg_ℤ d
neg_ℤ-*ℤ_both a b c d e = rw (neg_ℤ-*ℤ_left a b, neg_ℤ-*ℤ_right c d) (ap neg_ℤ e)

pub *ℤ_cancel : (a b d : ℤ) → 0 < nat_abs d → a *ℤ d ≡ b *ℤ d → a ≡ b
*ℤ_cancel a b (pos n) h e = *ℤ-pos_cancel a b n h e
*ℤ_cancel a b (negsuc n) h e =
    eq_of_parts a b (eq_of_mul-eq-mul_right (suc n) (zero-lt-suc n) _ _ scaled)
  where
    scaled : (pos_part a + neg_part b) * suc n ≡ (pos_part b + neg_part a) * suc n
    scaled = omega (arith, product_laws, ap pos_part e, ap neg_part e)

pub *ℤ_regroup : (a b c : ℤ) → a *ℤ b *ℤ c ≡ a *ℤ c *ℤ b
*ℤ_regroup a b c = eq_of_parts _ _ (simp product_laws (omega arith))

pub -ℤ-*ℤ : (a b c : ℤ) → (a -ℤ b) *ℤ c ≡ a *ℤ c -ℤ b *ℤ c
-ℤ-*ℤ a b c = eq_of_parts _ _ (
    omega (
      arith,
      product_laws,
      -ℤ_parts (a *ℤ c) (b *ℤ c),
      -ℤ_parts a b,
      ap (λ (z : ℕ). z * pos_part c) (-ℤ_parts a b),
      ap (λ (z : ℕ). z * neg_part c) (-ℤ_parts a b),
    ))

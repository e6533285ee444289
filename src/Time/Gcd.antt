-- ===== src/Time/Gcd.antt =====
-- `gcd` of crates/contracts/src/lib.rs: Euclid's `while right != 0` loop, by recursion on the
-- accessibility of `right`, and the facts on lowest terms that normalisation needs.
use Prim.Native.Nat.{◌∣◌}
use mathlib.Core.WellFounded.{Acc}
use native.Mathlib.Nat
use stitch_editor.Prelude.{ℕ, zero, suc, ◌+◌, ◌*◌, ◌/◌, ◌%◌, ◌<◌, ◌≡◌, arith, subst, sym}

below : (bound n : ℕ) → n < bound → Acc ◌<◌ n
below zero n h = absurd (omega arith)
below (suc bound) n h = Acc.intro n (λ m smaller. below bound m (omega arith))

ends : (right : ℕ) → Acc ◌<◌ right
unfolding below
ends right = below (suc right) right (omega arith)

remainder_falls : (left r : ℕ) → left % suc r < suc r
remainder_falls left r = omega arith

gcd_loop : (left right : ℕ) → Acc ◌<◌ right → ℕ
gcd_loop left right (Acc.intro zero _) = left
gcd_loop left right (Acc.intro (suc r) step) =
    gcd_loop (suc r) (left % suc r) (step (left % suc r) (remainder_falls left r))

unfoldable pub gcd : ℕ → ℕ → ℕ
unfolding gcd_loop ends remainder_falls
gcd left right = gcd_loop left right (ends right)

gcd_loop-dvd :
    (left right : ℕ) (w : Acc ◌<◌ right)
    → (gcd_loop left right w ∣ left) × (gcd_loop left right w ∣ right)
unfolding gcd_loop
gcd_loop-dvd left right (Acc.intro zero _) = (Nat.dvd_refl left, Nat.dvd-zero left)
gcd_loop-dvd left right (Acc.intro (suc r) step) =
    let inner = gcd_loop-dvd (suc r) (left % suc r) (step _ (remainder_falls left r)) in
    ((Nat.dvd-mod_iff _ inner.0).0 inner.1, inner.0)

-- What the loop ends with is a common divisor of what it was given.
pub gcd-dvd : (left right : ℕ) → (gcd left right ∣ left) × (gcd left right ∣ right)
unfolding gcd
gcd-dvd left right = gcd_loop-dvd left right (ends right)

remainder-dvd : (k left right c : ℕ) → k ∣ left * c → k ∣ right * c → k ∣ left % right * c
remainder-dvd k left right c hl hr =
    (Nat.dvd-add_iff_right k (Nat.dvd-mul_right_of_dvd k hr (left / right))).1
      (subst (◌∣◌ k) split hl)
  where
    split : left * c ≡ right * c * (left / right) + left % right * c
    split = rw (Nat.mul_right_comm right c, ← Nat.add-mul, Nat.div-add-mod)

dvd-gcd_loop :
    (k c left right : ℕ) (w : Acc ◌<◌ right)
    → k ∣ left * c
    → k ∣ right * c
    → k ∣ gcd_loop left right w * c
unfolding gcd_loop
dvd-gcd_loop k c left right (Acc.intro zero _) hl hr = hl
dvd-gcd_loop k c left right (Acc.intro (suc r) step) hl hr =
    dvd-gcd_loop k c (suc r) (left % suc r) (step _ (remainder_falls left r)) hr
      (remainder-dvd k left (suc r) c hl hr)

-- The greatest: every common divisor divides it, also of the arguments times `c`.
pub dvd-gcd-mul : (k left right c : ℕ) → k ∣ left * c → k ∣ right * c → k ∣ gcd left right * c
unfolding gcd
dvd-gcd-mul k left right c = dvd-gcd_loop k c left right (ends right)

pub dvd-gcd : (k left right : ℕ) → k ∣ left → k ∣ right → k ∣ gcd left right
dvd-gcd k left right hl hr =
    let by_one = λ (n : ℕ) (h : k ∣ n). Nat.dvd-mul_right_of_dvd k h 1 in
    rw Nat.mul-one at (dvd-gcd-mul k left right 1 (by_one left hl) (by_one right hr))

pub gcd_pos : (left right : ℕ) → 0 < right → 0 < gcd left right
gcd_pos left right h = Nat.pos_of_dvd_of_pos (gcd-dvd left right).1 h

scaled-dvd : (g k n : ℕ) → g ∣ n → k ∣ n / g → k * g ∣ n
scaled-dvd g k n whole part =
    subst (λ m. k * g ∣ m) (Nat.div-mul_cancel g whole) (Nat.mul-dvd-mul_right k part g)

-- The quotients by it have no common divisor left.
pub gcd-div-div :
    (left right : ℕ) → 0 < right → gcd (left / gcd left right) (right / gcd left right) ≡ 1
gcd-div-div left right positive =
    let divides = gcd-dvd left right in
    let common = gcd-dvd (left / gcd left right) (right / gcd left right) in
    let both =
      dvd-gcd _ left right (scaled-dvd _ _ left divides.0 common.0)
        (scaled-dvd _ _ right divides.1 common.1) in
    Nat.eq-one_of_dvd-one
      (Nat.dvd_of_mul-dvd-mul_right _ (gcd_pos left right positive) (rw Nat.one-mul both))

-- A coprime pair divides every pair of the same ratio.
pub coprime-dvd : (a b n d : ℕ) → gcd a b ≡ 1 → a * d ≡ n * b → b ∣ d
coprime-dvd a b n d coprime cross =
    rw (coprime, Nat.one-mul) at
      (dvd-gcd-mul b a b d (subst (◌∣◌ b) (sym cross) (Nat.dvd-mul_left b n))
        (Nat.dvd-mul_right b d))

-- Two coprime pairs of one ratio are the same.
pub coprime_unique :
    (a b n d : ℕ) → 0 < b → gcd a b ≡ 1 → gcd n d ≡ 1 → a * d ≡ n * b → (a ≡ n) × (b ≡ d)
coprime_unique a b n d pos left right cross =
    let same : b ≡ d =
      Nat.dvd_antisymm (coprime-dvd a b n d left cross) (coprime-dvd n d a b right (sym cross)) in
    (Nat.eq_of_mul-eq-mul_right b pos a n (subst (λ t. a * t ≡ n * b) (sym same) cross), same)

-- ===== src/Time/Adapter/Rounding.antt =====
-- `round_quotient` against the definition of each rounding policy.
use stitch_editor.Prelude.{
  ℕ, ◌+◌, ◌-◌, ◌*◌, ◌%◌, ◌^◌, ◌≤◌, ◌<◌, ◌≡◌, refl, ap, arith, ◌⊎◌, inl, inr, Bool-cases, true,
  false, ltb, if◌then◌else◌,
}
use stitch_editor.Prelude.Int.{
  ℤ, pos, negsuc, pos_part, neg_part, nat_abs, ◌+ℤ◌, ◌-ℤ◌, ◌*ℤ◌, ◌≤ℤ◌, ◌<ℤ◌, div_euclid, rem_euclid,
  product_laws, int_laws, +ℤ_parts, ◌==ℤ◌, compare_ℤ, -ℤ_parts, eq_of_parts,
}
use stitch_editor.Time.Rational.{try_i128}
use stitch_editor.Prelude.Result.{ok}
use stitch_editor.Time.Adapter.{RoundingPolicy, floor, ceil, nearest_even, round_quotient, nearest}

-- What the ticks `t` leave over of n / d, times d.
abbrev pub residue : ℤ → ℤ → ℤ → ℤ
residue n d t = n -ℤ t *ℤ d

-- `t` is n / d rounded by the policy.
abbrev pub Rounds : RoundingPolicy → ℤ → ℤ → ℤ → Type 0
Rounds floor n d t = (pos 0 ≤ℤ residue n d t) × (residue n d t <ℤ d)
Rounds ceil n d t = (residue n d t ≤ℤ pos 0) × (pos 0 <ℤ residue n d t +ℤ d)
Rounds nearest_even n d t =
    (nat_abs (residue n d t) * 2 ≤ nat_abs d)
    × (nat_abs (residue n d t) * 2 ≡ nat_abs d → rem_euclid t (pos 2) ≡ pos 0)

-- The quotient and the remainder of Euclidean division by a positive number.
euclid_parts :
    (n : ℤ) (d : ℕ)
    → 0 < d
    → (k : ℕ) × (rem_euclid n (pos d) ≡ pos k)
      × (k < d)
      × (pos_part n + neg_part (div_euclid n (pos d)) * d
          ≡ neg_part n + pos_part (div_euclid n (pos d)) * d + k)
unfolding div_euclid rem_euclid
euclid_parts (pos m) d h = (m % d, refl, omega arith, omega arith)
euclid_parts (negsuc m) d h = (d - 1 - m % d, refl, omega arith, omega arith)

residue-quotient :
    (n q : ℤ) (d k : ℕ)
    → pos_part n + neg_part q * d ≡ neg_part n + pos_part q * d + k
    → residue n (pos d) q ≡ pos k
residue-quotient n q d k e =
    eq_of_parts _ _ (omega (arith, product_laws, e, -ℤ_parts n (q *ℤ pos d)))

-- One more tick.
residue-next :
    (n q : ℤ) (d k : ℕ)
    → pos_part n + neg_part q * d ≡ neg_part n + pos_part q * d + k
    → residue n (pos d) (q +ℤ pos 1) ≡ pos k -ℤ pos d
residue-next n q d k e = eq_of_parts _ _ (
    omega (
      arith,
      product_laws,
      -ℤ_parts n ((q +ℤ pos 1) *ℤ pos d),
      -ℤ_parts (pos k) (pos d),
      ap (λ (z : ℕ). z * d) (+ℤ_parts q (pos 1)),
    ))

plus_zero : (q : ℤ) → q +ℤ pos 0 ≡ q
plus_zero q = omega int_laws

is_zero : (k : ℕ) → (pos k ==ℤ pos 0) ≡ true → k ≡ 0
is_zero k h = ground arith

not_zero : (k : ℕ) → (pos k ==ℤ pos 0) ≡ false → 0 < k
not_zero k h = ground arith

below_zero : (k d : ℕ) → k < d → pos k -ℤ pos d ≡ negsuc (d - k - 1)
unfolding ◌-ℤ◌
below_zero k d h = ground arith

fits_doubled : (k d : ℕ) → k < d → d < 2 ^ 63 → ltb (k * 2) (2 ^ 127) ≡ true
fits_doubled k d h w = ground arith

next-even :
    (q : ℤ) → (rem_euclid q (pos 2) ==ℤ pos 0) ≡ false → rem_euclid (q +ℤ pos 1) (pos 2) ≡ pos 0
unfolding rem_euclid ◌+ℤ◌
next-even (pos m) h = ground arith
next-even (negsuc m) h = ground arith

-- The two outcomes of rounding to the nearest.
nearest-cases :
    (q : ℤ) (k d : ℕ)
    → ((k * 2 ≤ d)
        × (k * 2 ≡ d → rem_euclid q (pos 2) ≡ pos 0)
        × (nearest (compare_ℤ (pos (k * 2)) (pos d)) q ≡ q))
      ⊎ ((d ≤ k * 2)
          × (k * 2 ≡ d → rem_euclid (q +ℤ pos 1) (pos 2) ≡ pos 0)
          × (nearest (compare_ℤ (pos (k * 2)) (pos d)) q ≡ q +ℤ pos 1))
nearest-cases q k d = elim (Bool-cases (rem_euclid q (pos 2) ==ℤ pos 0)) [
  | inl even ↦ ground arith
  | inr odd ↦ ground (arith, next-even q odd)
]

module _ (n q : ℤ) (d k : ℕ) (below : k < d)
    (split : pos_part n + neg_part q * d ≡ neg_part n + pos_part q * d + k) where
  at_quotient : residue n (pos d) q ≡ pos k
  at_quotient = residue-quotient n q d k split

  at_next : residue n (pos d) (q +ℤ pos 1) ≡ pos k -ℤ pos d
  at_next = residue-next n q d k split

  floor-Rounds : Rounds floor n (pos d) q
  floor-Rounds = rw at_quotient (omega arith, omega arith)

  ceil-Rounds : Rounds ceil n (pos d) (q +ℤ (if pos k ==ℤ pos 0 then pos 0 else pos 1))
  ceil-Rounds = elim (Bool-cases (pos k ==ℤ pos 0)) [
    | inl exact ↦
        rw (exact, plus_zero q, at_quotient)
          (omega (arith, is_zero k exact, +ℤ_parts (pos k) (pos d)))
    | inr over ↦
        rw (over, at_next, below_zero k d below)
          (omega (arith, not_zero k over, +ℤ_parts (negsuc (d - k - 1)) (pos d)))
  ]

  nearest-Rounds : Rounds nearest_even n (pos d) (nearest (compare_ℤ (pos (k * 2)) (pos d)) q)
  nearest-Rounds = elim (nearest-cases q k d) [
    | inl (le, even, same) ↦ rw (same, at_quotient) (le, even)
    | inr (ge, even, same) ↦
        rw (same, at_next, below_zero k d below) (omega arith, λ h. even (omega arith))
  ]

-- For a positive denominator below 2^63, round_quotient succeeds, and its result rounds the
-- quotient as the policy says: down, up, or to the nearest with ties to even.
pub round_quotient-Rounds :
    (policy : RoundingPolicy) (n : ℤ) (d : ℕ)
    → 0 < d
    → d < 2 ^ 63
    → (t : ℤ) × (round_quotient n (pos d) policy ≡ ok t) × Rounds policy n (pos d) t
unfolding round_quotient
round_quotient-Rounds floor n d h w =
    let (k, same, below, split) = euclid_parts n d h in
    (_, refl, floor-Rounds n (div_euclid n (pos d)) d k below split)
round_quotient-Rounds ceil n d h w =
    let (k, same, below, split) = euclid_parts n d h in
    (_, rw same refl, ceil-Rounds n (div_euclid n (pos d)) d k below split)
round_quotient-Rounds nearest_even n d h w =
    let (k, same, below, split) = euclid_parts n d h in
    (
      _,
      rw (same, try_i128, fits_doubled k d below w),
      nearest-Rounds n (div_euclid n (pos d)) d k below split,
    )

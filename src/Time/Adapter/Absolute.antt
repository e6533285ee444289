-- ===== src/Time/Adapter/Absolute.antt =====
-- `adapt_absolute` against the ticks and the error that it is to give.
use mathlib.Core.Path.{◌≡⟨◌⟩◌, ◌∎}
use stitch_editor.Prelude.{◌<◌, ◌≡◌, some, sym, ap, subst, arith}
use stitch_editor.Prelude.Int.{ℤ, pos, negsuc, ◌-ℤ◌, ◌*ℤ◌, ◌<ℤ◌, *ℤ_assoc, nat_abs}
use stitch_editor.Prelude.Result.{ok, ok_or, passed, passes, ok_or-eq-ok}
use stitch_editor.Time.Rational.{Rational, overflow, new, checked_sub, try_i64}
use stitch_editor.Time.Rational.Canonical.{IsCanonical, FitsI64, try_i64-some}
use stitch_editor.Time.Rational.Signs.{*ℤ_cancel, *ℤ_regroup, -ℤ-*ℤ}
use stitch_editor.Time.Rational.Exact.{IsQuotient, abs_pos, new_iff, checked_sub_iff}
use stitch_editor.Time.Adapter.{
  AdapterUnit, RoundingPolicy, AdaptedTime, rate_of, ticks_per_second, round_quotient,
  adapt_absolute,
}
use stitch_editor.Time.Adapter.Rounding.{Rounds, round_quotient-Rounds}

ticks_per_second-ok :
    (u : AdapterUnit) {rate : ℤ}
    → ticks_per_second u ≡ ok rate
    → (rate ≡ pos (rate_of u)) × (0 < rate_of u) × FitsI64 rate
unfolding ticks_per_second
ticks_per_second-ok u h = ground arith

round_quotient-ok :
    (p : RoundingPolicy) (n d : ℤ) {t : ℤ}
    → pos 0 <ℤ d
    → FitsI64 d
    → round_quotient n d p ≡ ok t
    → Rounds p n d t
round_quotient-ok p n (pos d) {t} h w e =
    let (t', found, rounds) = round_quotient-Rounds p n d (omega arith) (omega arith) in
    subst (Rounds p n (pos d)) (cc found) rounds
round_quotient-ok p n (negsuc d) h w e = absurd (omega arith)

-- The error that `checked_sub` returns, with the represented time eliminated.
error_value :
    (tn td qn qd en ed k rate : ℤ)
    → 0 < nat_abs qd
    → qn *ℤ rate ≡ k *ℤ qd
    → en *ℤ (td *ℤ qd) ≡ (tn *ℤ qd -ℤ qn *ℤ td) *ℤ ed
    → en *ℤ (td *ℤ rate) ≡ (tn *ℤ rate -ℤ k *ℤ td) *ℤ ed
error_value tn td qn qd en ed k rate nonzero quotient difference = *ℤ_cancel _ _ qd nonzero (
    en *ℤ (td *ℤ rate) *ℤ qd
    ≡⟨ rw (*ℤ_assoc en (td *ℤ rate) qd, *ℤ_regroup td rate qd) (sym (*ℤ_assoc en (td *ℤ qd) rate)) ⟩
      en *ℤ (td *ℤ qd) *ℤ rate
    ≡⟨ ap (λ z. z *ℤ rate) difference ⟩ (tn *ℤ qd -ℤ qn *ℤ td) *ℤ ed *ℤ rate
    ≡⟨ *ℤ_regroup (tn *ℤ qd -ℤ qn *ℤ td) ed rate ⟩ (tn *ℤ qd -ℤ qn *ℤ td) *ℤ rate *ℤ ed
    ≡⟨ ap (λ z. z *ℤ ed) inner ⟩ (tn *ℤ rate -ℤ k *ℤ td) *ℤ qd *ℤ ed
    ≡⟨ *ℤ_regroup (tn *ℤ rate -ℤ k *ℤ td) qd ed ⟩ (tn *ℤ rate -ℤ k *ℤ td) *ℤ ed *ℤ qd ∎)
  where
    represented : qn *ℤ td *ℤ rate ≡ k *ℤ td *ℤ qd
    represented = rw (*ℤ_regroup qn td rate, quotient) (*ℤ_regroup k qd td)

    inner : (tn *ℤ qd -ℤ qn *ℤ td) *ℤ rate ≡ (tn *ℤ rate -ℤ k *ℤ td) *ℤ qd
    inner = rw (
      -ℤ-*ℤ (tn *ℤ qd) (qn *ℤ td) rate,
      -ℤ-*ℤ (tn *ℤ rate) (k *ℤ td) qd,
      represented,
      *ℤ_regroup tn qd rate,
    )

-- The trace of a conversion, for a rate of `rate` ticks a second.
pub record IsAdapted (t : Rational) (u : AdapterUnit) (p : RoundingPolicy) (a : AdaptedTime)
    : Type 0 where
  pub time : a.canonical_time ≡ t
  pub rounded : Rounds p (t.numerator *ℤ pos (rate_of u)) t.denominator a.ticks
  pub ticks_fit : FitsI64 a.ticks
  pub error_canonical : IsCanonical a.error
  pub error_exact :
      IsQuotient a.error
        (t.numerator *ℤ pos (rate_of u) -ℤ a.ticks *ℤ t.denominator)
        (t.denominator *ℤ pos (rate_of u))

-- The results of the steps of `adapt_absolute`.
record Steps (t : Rational) (u : AdapterUnit) (p : RoundingPolicy) (a : AdaptedTime) : Type 0 where
  rate : ℤ
  ticks : ℤ
  represented : Rational
  rate_ok : ticks_per_second u ≡ ok rate
  ticks_ok : round_quotient (t.numerator *ℤ rate) t.denominator p ≡ ok ticks
  narrow_ok : try_i64 ticks ≡ some a.ticks
  represented_ok : new a.ticks rate ≡ ok represented
  error_ok : checked_sub t represented ≡ ok a.error
  time_ok : a.canonical_time ≡ t

adapt_absolute-Steps :
    (t : Rational) (u : AdapterUnit) (p : RoundingPolicy) {a : AdaptedTime}
    → adapt_absolute t u p ≡ ok a
    → Steps t u p a
unfolding adapt_absolute
adapt_absolute-Steps t u p {a} h = elim (passed (ticks_per_second u) _ h) [
  | passes rate h1 r1 ↦ elim (passed (round_quotient (t.numerator *ℤ rate) t.denominator p) _ r1) [
    | passes ticks h2 r2 ↦ elim (passed (ok_or (try_i64 ticks) overflow) _ r2) [
      | passes narrow h3 r3 ↦ elim (passed (new narrow rate) _ r3) [
        | passes q h4 r4 ↦ elim (passed (checked_sub t q) _ r4) [
          | passes e h5 r5 ↦
              let same : a
                  ≡ record { canonical_time = t; unit = u; policy = p; ticks = narrow; error = e } =
                cc r5 in
              record {
                rate = rate;
                ticks = ticks;
                represented = q;
                rate_ok = h1;
                ticks_ok = h2;
                narrow_ok = rw same (ok_or-eq-ok (try_i64 ticks) overflow h3);
                represented_ok = rw same h4;
                error_ok = rw same h5;
                time_ok = ap (λ b. b.canonical_time) same;
              }
        ]
      ]
    ]
  ]
]

represented_value :
    (k rate : ℤ) (q : Rational)
    → FitsI64 k
    → FitsI64 rate
    → new k rate ≡ ok q
    → IsCanonical q × (q.numerator *ℤ rate ≡ k *ℤ q.denominator)
represented_value k rate q hk hr e = let found = (new_iff k rate q hk hr).0 e in (found.1, found.2)

from_Steps :
    (t : Rational) (u : AdapterUnit) (p : RoundingPolicy) {a : AdaptedTime}
    → IsCanonical t
    → Steps t u p a
    → IsAdapted t u p a
from_Steps t u p {a} ct s =
    let rate = ticks_per_second-ok u s.rate_ok in
    let ticks = try_i64-some s.ticks a.ticks s.narrow_ok in
    let q =
      represented_value a.ticks s.rate s.represented (subst FitsI64 (sym ticks.0) ticks.1) rate.2
        s.represented_ok in
    let e = (checked_sub_iff t s.represented ct q.0 a.error).0 s.error_ok in
    record {
      time = s.time_ok;
      rounded =
          subst (λ z. Rounds p (t.numerator *ℤ z) t.denominator a.ticks) rate.0
            (subst (Rounds p (t.numerator *ℤ s.rate) t.denominator) (sym ticks.0) (
              round_quotient-ok p (t.numerator *ℤ s.rate) t.denominator ct.denominator_pos
                ct.denominator_fits s.ticks_ok));
      ticks_fit = subst FitsI64 (sym ticks.0) ticks.1;
      error_canonical = e.0;
      error_exact =
          subst
            (λ z.
              IsQuotient a.error (t.numerator *ℤ z -ℤ a.ticks *ℤ t.denominator)
                (t.denominator *ℤ z))
            rate.0
            (error_value t.numerator t.denominator s.represented.numerator s.represented.denominator
              a.error.numerator a.error.denominator a.ticks s.rate
              (abs_pos s.represented.denominator q.0.denominator_pos) q.1 e.1);
    }

-- Where a canonical time is adapted, the ticks are the time in ticks rounded by the policy, and
-- the error is exactly what the rounding left.
pub adapt_absolute-IsAdapted :
    (t : Rational) (u : AdapterUnit) (p : RoundingPolicy) {a : AdaptedTime}
    → IsCanonical t
    → adapt_absolute t u p ≡ ok a
    → IsAdapted t u p a
adapt_absolute-IsAdapted t u p {a} ct h = from_Steps t u p ct (adapt_absolute-Steps t u p h)

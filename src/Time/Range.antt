-- ===== src/Time/Range.antt =====
-- `TimeRange` of crates/contracts/src/lib.rs: nonempty half-open ranges.
use stitch_editor.Prelude.{
  ◌≡◌, sym, subst, Bool, true, false, not, ◌&&◌, ◌||◌, arith, if◌then◌else◌,
}
use stitch_editor.Prelude.Result.{Result, ok, err}
use stitch_editor.Time.Rational.{Rational, TimeError, cmp, ◌<ᵣ◌, ◌≤ᵣ◌, invalid_range, is_lt}
use stitch_editor.Time.Rational.Canonical.{IsCanonical}
use stitch_editor.Time.Rational.Order.{le-not-lt, lt_trans}

pub record TimeRange : Type 0 where
  pub start : Rational
  pub end : Rational

-- `start >= end`
infix 50 ◌≥ᵣ◌
abbrev pub ◌≥ᵣ◌ : Rational → Rational → Bool
a ≥ᵣ b = not (is_lt (cmp a b))

-- `TimeRange::new`
unfoldable pub new : Rational → Rational → Result TimeError TimeRange
new start end = if start ≥ᵣ end then err invalid_range else ok (record { start = start; end = end })

unfoldable pub contains : TimeRange → Rational → Bool
contains self time = (self.start ≤ᵣ time) && (time <ᵣ self.end)

-- What `new` establishes.
pub record IsRange (r : TimeRange) : Type 0 where
  pub start_canonical : IsCanonical r.start
  pub end_canonical : IsCanonical r.end
  pub ordered : (r.start <ᵣ r.end) ≡ true

pub new-ordered :
    (start end : Rational)
    → (start <ᵣ end) ≡ true
    → new start end ≡ ok (record { start = start; end = end })
unfolding new
new-ordered start end h = rw h

new-ok :
    (a b : Rational) {r : TimeRange}
    → new a b ≡ ok r
    → ((a <ᵣ b) ≡ true) × (r ≡ record { start = a; end = b })
unfolding new
new-ok a b h = ground arith

-- Where `new` succeeds it keeps the bounds, and establishes the invariant.
pub new-IsRange :
    (start end : Rational) {r : TimeRange}
    → IsCanonical start
    → IsCanonical end
    → new start end ≡ ok r
    → (r ≡ record { start = start; end = end }) × IsRange r
new-IsRange start end {r} cs ce h =
    let found = new-ok start end h in
    (
      found.1,
      subst IsRange (sym found.1)
          (record { start_canonical = cs; end_canonical = ce; ordered = found.0 }),
    )

halves_lem :
    (la lb lc : Bool)
    → (la ≡ true → lb ≡ true)
    → (lb ≡ true → lc ≡ true)
    → ((not la && lc) ≡ ((not la && lb) || (not lb && lc)))
      × (((not la && lb) && (not lb && lc)) ≡ false)
halves_lem la lb lc p q = ground arith

-- Where two valid ranges of canonical bounds meet, the range that spans them is valid, and a
-- canonical time is in it exactly when it is in one of the two, never in both.
pub contains_split :
    (a b c t : Rational)
    → IsCanonical a
    → IsCanonical b
    → IsCanonical c
    → IsCanonical t
    → {left right : TimeRange} → new a b ≡ ok left
    → new b c ≡ ok right
    → (whole : TimeRange) × (new a c ≡ ok whole)
      × (contains whole t ≡ (contains left t || contains right t))
      × ((contains left t && contains right t) ≡ false)
unfolding contains
contains_split a b c t ca cb cc ct {left} {right} hl hr = (
  record { start = a; end = c },
  new-ordered a c (lt_trans a b c ca cb cc ab bc),
  (rw (same_left, same_right, le-not-lt a t, le-not-lt b t) halves.0),
  (rw (same_left, same_right, le-not-lt a t, le-not-lt b t) halves.1),
)
  where
    ab : (a <ᵣ b) ≡ true
    ab = (new-ok a b hl).0

    bc : (b <ᵣ c) ≡ true
    bc = (new-ok b c hr).0

    same_left : left ≡ record { start = a; end = b }
    same_left = (new-ok a b hl).1

    same_right : right ≡ record { start = b; end = c }
    same_right = (new-ok b c hr).1

    halves :
        ((not (t <ᵣ a) && (t <ᵣ c)) ≡ ((not (t <ᵣ a) && (t <ᵣ b)) || (not (t <ᵣ b) && (t <ᵣ c))))
        × (((not (t <ᵣ a) && (t <ᵣ b)) && (not (t <ᵣ b) && (t <ᵣ c))) ≡ false)
    halves =
        halves_lem (t <ᵣ a) (t <ᵣ b) (t <ᵣ c) (λ h. lt_trans t a b ct ca cb h ab)
          (λ h. lt_trans t b c ct cb cc h bc)

-- ===== src/Time/Adapter/Sequence.antt =====
-- `adapt_absolute_sequence`: what a converted sequence satisfies.
use stitch_editor.Prelude.{
  ◌≡◌, refl, sym, ap, subst, ◌∙◌, Bool, true, false, Option, none, some, List, [], ◌∷◌, ◌++◌, ◌↔◌,
  arith, append_assoc, append-nil,
}
use stitch_editor.Prelude.Int.{◌<ℤ◌, leb_ℤ}
use stitch_editor.Prelude.Result.{ok, fail_if, passed, passes}
use stitch_editor.Time.Rational.{
  Rational, TimeError, invalid_range, non_monotonic_adapted_ticks, ◌<ᵣ◌, ◌≤ᵣ◌,
}
use stitch_editor.Time.Rational.Order.{le-not-lt}
use stitch_editor.Time.Adapter.{
  AdapterUnit, RoundingPolicy, AdaptedTime, adapt_absolute, adapt_absolute_sequence, adapt_from,
  last, is_some_and,
}

-- `x` lies above the last one, if there is one.
abbrev pub Above : Option Rational → Rational → Type 0
Above none time = Unit
Above (some previous) time = (previous <ᵣ time) ≡ true

abbrev pub TicksAbove : Option AdaptedTime → AdaptedTime → Type 0
TicksAbove none next = Unit
TicksAbove (some previous) next = previous.ticks <ℤ next.ticks

-- Each time is adapted by itself; times and ticks both increase strictly.
abbrev pub Adapts :
    AdapterUnit
    → RoundingPolicy
    → Option Rational
    → Option AdaptedTime
    → List Rational
    → List AdaptedTime
    → Type 0
Adapts unit policy previous before [] [] = Unit
Adapts unit policy previous before [] (a ∷ as') = ⊥
Adapts unit policy previous before (time ∷ times) [] = ⊥
Adapts unit policy previous before (time ∷ times) (a ∷ rest) =
    Above previous time
    × TicksAbove before a
    × (adapt_absolute time unit policy ≡ ok a)
    × Adapts unit policy (some time) (some a) times rest

last-snoc : (xs : List AdaptedTime) (x : AdaptedTime) → last (xs ++ x ∷ []) ≡ some x
last-snoc [] x = refl
last-snoc (y ∷ []) x = refl
last-snoc (y ∷ z ∷ ys) x = last-snoc (z ∷ ys) x

Above-test :
    (previous : Option Rational) (time : Rational)
    → (is_some_and previous (λ p. time ≤ᵣ p) ≡ false) ↔ Above previous time
Above-test none time = (λ h. tt, λ h. refl)
Above-test (some p) time =
    (λ h. ground (arith, le-not-lt time p), λ h. ground (arith, le-not-lt time p))

ticks-test :
    (before : Option AdaptedTime) (a : AdaptedTime)
    → (is_some_and before (λ p. leb_ℤ a.ticks p.ticks) ≡ false) ↔ TicksAbove before a
ticks-test none a = (λ h. tt, λ h. refl)
ticks-test (some p) a = (λ h. ground arith, λ h. ground arith)

guard_ok : (b : Bool) (e : TimeError) {u : Unit {0}} → fail_if b e ≡ ok u → b ≡ false
guard_ok b e h = ground arith

adapt_from-Adapts :
    (unit : AdapterUnit) (policy : RoundingPolicy) (times : List Rational)
    (previous : Option Rational) (adapted : List AdaptedTime) {out : List AdaptedTime}
    → adapt_from unit policy times previous adapted ≡ ok out
    → (rest : List AdaptedTime) × (out ≡ adapted ++ rest)
      × Adapts unit policy previous (last adapted) times rest
unfolding adapt_from
adapt_from-Adapts unit policy [] previous adapted {out} h = ([], rw append-nil (cc h), tt)
adapt_from-Adapts unit policy (time ∷ times) previous adapted {out} h =
    elim (passed (fail_if (is_some_and previous (λ p. time ≤ᵣ p)) invalid_range) _ h) [
      | passes _ h1 r1 ↦ elim (passed (adapt_absolute time unit policy) _ r1) [
        | passes next h2 r2 ↦
            elim (passed
              (fail_if (is_some_and (last adapted) (λ p. leb_ℤ next.ticks p.ticks))
                non_monotonic_adapted_ticks)
              _ r2) [
                | passes _ h3 r3 ↦
                    let (rest, e, chain) =
                      adapt_from-Adapts unit policy times (some time) (adapted ++ next ∷ []) r3 in
                    (
                      next ∷ rest,
                      e ∙ append_assoc adapted (next ∷ []) rest,
                      (
                        (Above-test previous time).0 (guard_ok _ _ h1),
                        (ticks-test (last adapted) next).0 (guard_ok _ _ h3),
                        h2,
                        subst (λ l. Adapts unit policy (some time) l times rest)
                            (last-snoc adapted next) chain,
                      ),
                    )
              ]
      ]
    ]

Adapts-adapt_from :
    (unit : AdapterUnit) (policy : RoundingPolicy) (times : List Rational)
    (previous : Option Rational) (adapted rest : List AdaptedTime)
    → Adapts unit policy previous (last adapted) times rest
    → adapt_from unit policy times previous adapted ≡ ok (adapted ++ rest)
unfolding adapt_from
Adapts-adapt_from unit policy [] previous adapted [] h = rw append-nil
Adapts-adapt_from unit policy [] previous adapted (a ∷ rest) h = absurd h
Adapts-adapt_from unit policy (time ∷ times) previous adapted [] h = absurd h
Adapts-adapt_from unit policy (time ∷ times) previous adapted (a ∷ rest) h =
    rw ((Above-test previous time).1 h.0, h.2, (ticks-test (last adapted) a).1 h.1)
      (Adapts-adapt_from unit policy times (some time) (adapted ++ a ∷ []) rest
          (subst (λ l. Adapts unit policy (some time) l times rest) (sym (last-snoc adapted a)) h.3)
        ∙ ap ok (append_assoc adapted (a ∷ []) rest))

-- A sequence of times converts to a list exactly when each time is adapted by itself, in the given
-- order, and both the times and the ticks increase strictly.
pub adapt_absolute_sequence_iff :
    (times : List Rational) (unit : AdapterUnit) (policy : RoundingPolicy) (out : List AdaptedTime)
    → (adapt_absolute_sequence times unit policy ≡ ok out) ↔ Adapts unit policy none none times out
unfolding adapt_absolute_sequence
adapt_absolute_sequence_iff times unit policy out = (
  λ h.
      let (rest, e, chain) = adapt_from-Adapts unit policy times none [] h in
      subst (Adapts unit policy none none times) (sym e) chain,
  Adapts-adapt_from unit policy times none [] out,
)

-- ===== src/Abi/Safe.antt =====
-- Operations of the C interface sorted by what they do where they fail, and rules to derive it.
use stitch_editor.Prelude.{ℕ, ◌≡◌, ◌≢◌, refl, ◌∙◌, Bool, true, false, Option, none, some}
use stitch_editor.Prelude.Result.{Result, ok, err}
use stitch_editor.Crates.Im.{Im}
use stitch_editor.Abi.Table.{get}
use stitch_editor.Abi.Types.{
  StitchResult, success, unknown_handle, invalid_argument, reentrant_mutation,
}
use stitch_editor.Abi.Process.{
  Process, CoreState, ThreadId, Op, continue, ◌>>=◌, return, fail, input, writes, store_core,
  next_handle, output, stop_if, found, writable, lift, core, not_in_callback, finish, ffi,
}

module _ {im : Im} where
  pub record Keeps {A : Type 0} (m : Op im A) : Type 0 where
    pub keeps : (p : Process im) → (m p).0 ≡ p

  pub record Sure {A : Type 0} (m : Op im A) : Type 0 where
    pub sure : (p : Process im) (e : StitchResult) → (m p).1 ≢ err e

  pub record Safe {A : Type 0} (m : Op im A) : Type 0 where
    pub safe : (p : Process im) (e : StitchResult) → (m p).1 ≡ err e → (m p).0 ≡ p

  pub Sure-Safe : {A : Type 0} (m : Op im A) → Sure m → Safe m
  Sure-Safe m s = record { safe = λ p e failed. absurd (s.sure p e failed) }

  module _ {A B : Type 0} where
    continue-Safe :
        (p : Process im) (f : A → Op im B) (x : Process im × Result StitchResult A)
        → x.0 ≡ p
        → ((a : A) → Safe (f a))
        → (e : StitchResult) → (continue x f).1 ≡ err e
        → (continue x f).0 ≡ p
    continue-Safe p f (q, ok a) same h e failed = (h a).safe q e failed ∙ same
    continue-Safe p f (q, err e') same h e failed = same

    -- What is read before the rest may fail.
    pub Safe-bind :
        (m : Op im A) (f : A → Op im B) → Keeps m → ((a : A) → Safe (f a)) → Safe (m >>= f)
    unfolding ◌>>=◌
    Safe-bind m f k h = record {
      safe = λ p e failed. continue-Safe p f (m p) (k.keeps p) h e failed;
    }

    continue-nested :
        {C : Type 0} (p : Process im) (f : A → Op im B) (g : B → Op im C)
        (x : Process im × Result StitchResult A)
        → x.0 ≡ p
        → ((a : A) → Safe (f a >>= g))
        → (e : StitchResult) → (continue (continue x f) g).1 ≡ err e
        → (continue (continue x f) g).0 ≡ p
    unfolding ◌>>=◌
    continue-nested p f g (q, ok a) same h e failed = (h a).safe q e failed ∙ same
    continue-nested p f g (q, err e') same h e failed = same

    continue-Keeps :
        (p : Process im) (f : A → Op im B) (x : Process im × Result StitchResult A)
        → x.0 ≡ p
        → ((a : A) → Keeps (f a))
        → (continue x f).0 ≡ p
    continue-Keeps p f (q, ok a) same h = (h a).keeps q ∙ same
    continue-Keeps p f (q, err e') same h = same

    continue-Sure :
        (f : A → Op im B) (x : Process im × Result StitchResult A)
        → ((e : StitchResult) → x.1 ≢ err e)
        → ((a : A) → Sure (f a))
        → (e : StitchResult) → (continue x f).1 ≢ err e
    continue-Sure f (q, ok a) sure h e = (h a).sure q e
    continue-Sure f (q, err e') sure h e = absurd (sure e' refl)

    pub Sure-bind :
        (m : Op im A) (f : A → Op im B) → Sure m → ((a : A) → Sure (f a)) → Sure (m >>= f)
    unfolding ◌>>=◌
    Sure-bind m f s h = record { sure = λ p e. continue-Sure f (m p) (s.sure p) h e }

  pub Keeps-stop_if : (b : Bool) (e : StitchResult) → Keeps (stop_if b e)
  unfolding stop_if return fail
  Keeps-stop_if true e = record { keeps = λ p. refl }
  Keeps-stop_if false e = record { keeps = λ p. refl }

  pub Keeps-found : {A : Type 0} (o : Option A) (e : StitchResult) → Keeps (found o e)
  unfolding found return fail
  Keeps-found none e = record { keeps = λ p. refl }
  Keeps-found (some a) e = record { keeps = λ p. refl }

  pub Keeps-input : {A : Type 0} (o : Option A) → Keeps (input o)
  unfolding input
  Keeps-input o = Keeps-found o invalid_argument

  pub Keeps-lift : {A : Type 0} (r : Result StitchResult A) → Keeps (lift r)
  unfolding lift
  Keeps-lift r = record { keeps = λ p. refl }

  pub Keeps-core : (handle : ℕ) → Keeps (core handle)
  unfolding core
  Keeps-core handle = record {
    keeps = λ p. (Keeps-found (get handle p.cores) unknown_handle).keeps p;
  }

  pub Keeps-not_in_callback : (thread : ThreadId) → Keeps (not_in_callback thread)
  unfolding not_in_callback
  Keeps-not_in_callback thread = record {
    keeps = λ p. (Keeps-stop_if (p.in_callback thread) reentrant_mutation).keeps p;
  }

  pub Keeps-bind :
      {A B : Type 0} (m : Op im A) (f : A → Op im B)
      → Keeps m
      → ((a : A) → Keeps (f a))
      → Keeps (m >>= f)
  unfolding ◌>>=◌
  Keeps-bind m f k h = record { keeps = λ p. continue-Keeps p f (m p) (k.keeps p) h }

  pub Keeps-return : {A : Type 0} (a : A) → Keeps (return a)
  unfolding return
  Keeps-return a = record { keeps = λ p. refl }

  pub Keeps-output : {A : Type 0} (there : Bool) (value : A) → Keeps (output there value)
  unfolding output return fail
  Keeps-output true value = record { keeps = λ p. refl }
  Keeps-output false value = record { keeps = λ p. refl }

  pub Keeps-Safe : {A : Type 0} (m : Op im A) → Keeps m → Safe m
  Keeps-Safe m k = record { safe = λ p e failed. k.keeps p }

  pub Sure-writes : (f : Process im → Process im) → Sure (writes f)
  unfolding writes
  Sure-writes f = record { sure = λ p e h. cc h }

  pub Sure-store_core : (handle : ℕ) (state : CoreState im) → Sure (store_core handle state)
  unfolding store_core writes
  Sure-store_core handle state = record { sure = λ p e h. cc h }

  pub Sure-next_handle : Sure (next_handle {im = im})
  unfolding next_handle
  Sure-next_handle = record { sure = λ p e h. cc h }

  pub Sure-return : {A : Type 0} (a : A) → Sure (return a)
  unfolding return
  Sure-return a = record { sure = λ p e h. cc h }

  pub Sure-output :
      {A : Type 0} (there : Bool) (value : A) → there ≡ true → Sure (output there value)
  unfolding output return fail
  Sure-output true value h = record { sure = λ p e h. cc h }
  Sure-output false value h = absurd (cc h)

  -- A step whose own last step is followed by more.
  pub Safe-nested :
      {A B C : Type 0} (m : Op im A) (f : A → Op im B) (g : B → Op im C)
      → Keeps m
      → ((a : A) → Safe (f a >>= g))
      → Safe ((m >>= f) >>= g)
  unfolding ◌>>=◌
  Safe-nested m f g k h = record {
    safe = λ p e failed. continue-nested p f g (m p) (k.keeps p) h e failed;
  }

  -- Where there is storage to write to, the rest is safe; else the call stops.
  pub Safe-writable :
      {B : Type 0} (there : Bool) (f : Unit {0} → Op im B)
      → (there ≡ true → Safe (f tt))
      → Safe (writable there >>= f)
  unfolding writable ◌>>=◌ return fail
  Safe-writable true f h = record { safe = λ p e failed. (h refl).safe p e failed }
  Safe-writable false f h = record { safe = λ p e failed. refl }

  finish-failed :
      {A : Type 0} (out : Bool) (p : Process im) (x : Process im × Result StitchResult A)
      → ((e : StitchResult) → x.1 ≡ err e → x.0 ≡ p)
      → (finish out x).result ≢ success
      → (finish out x).process ≡ p
  unfolding finish
  finish-failed out p (q, ok a) h failed = absurd (failed refl)
  finish-failed out p (q, err e) h failed = h e refl

  -- A call built on a safe operation.
  pub ffi-failed :
      {A : Type 0} (out : Bool) (m : Op im A) (p : Process im)
      → Safe m
      → (ffi out m p).result ≢ success
      → (ffi out m p).process ≡ p
  unfolding ffi
  ffi-failed out m p s failed = finish-failed out p (m p) (λ e. s.safe p e) failed

pub ruleset reading = (
  Keeps-stop_if, Keeps-found, Keeps-input, Keeps-lift, Keeps-core, Keeps-not_in_callback,
  Keeps-return, Keeps-output, Keeps-bind,
)

pub ruleset writing =
    (Sure-writes, Sure-store_core, Sure-next_handle, Sure-return, Sure-output, Sure-bind)

pub ruleset safely = (Safe-bind, Safe-writable, Sure-Safe, reading, writing)

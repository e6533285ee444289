-- ===== src/Store/Monad.antt =====
-- The functions of crates/project-store/src/lib.rs that change a state and may fail with `?`: what
-- was changed before an error stays changed.
pub mod Post
use stitch_editor.Prelude.{Bool, Option, none, some, if◌then◌else◌, true, false}
use stitch_editor.Prelude.Result.{Result, ok, err}
use stitch_editor.Ids.{ModelError}
use stitch_editor.Store.{StoreError, sql, MaintenanceError, maintenance, FaultPoint, fault, is_at}

abbrev pub M : Type 0 → Type 0 → Type 0 → Type 0
M S E A = S → S × Result E A

module _ {S E A : Type 0} where
  abbrev pub return : A → M S E A
  return a s = (s, ok a)

  abbrev pub throw : E → M S E A
  throw e s = (s, err e)

  abbrev pub lift : Result E A → M S E A
  lift r s = (s, r)

module _ {S E A B : Type 0} where
  abbrev pub continue : (A → M S E B) → S × Result E A → S × Result E B
  continue f (s, ok a) = f a s
  continue f (s, err e) = (s, err e)

  infixl 5 ◌>>=◌
  unfoldable pub ◌>>=◌ : M S E A → (A → M S E B) → M S E B
  ◌>>=◌ m f s = continue f (m s)

module _ {S E B : Type 0} where
  infixl 5 ◌>>◌
  abbrev pub ◌>>◌ : M S E (Unit {0}) → M S E B → M S E B
  m >> k = m >>= λ _. k

module _ {S E : Type 0} where
  -- `if test { return Err(e); }`
  abbrev pub fail_if : Bool → E → M S E (Unit {0})
  fail_if test e s = (s, if test then err e else ok tt)

  abbrev pub modify : (S → S) → M S E (Unit {0})
  modify f s = (f s, ok tt)

module _ {S E F A : Type 0} where
  abbrev pub converted : (E → F) → S × Result E A → S × Result F A
  converted f (s, ok a) = (s, ok a)
  converted f (s, err e) = (s, err (f e))

  -- `map_err`
  unfoldable pub converting : (E → F) → M S E A → M S F A
  converting f m s = converted f (m s)

module _ {S T E A : Type 0} where
  -- A call on a part of the state.
  abbrev pub widened : (S → T → S) → S → T × Result E A → S × Result E A
  widened put s (t, r) = (put s t, r)

  unfoldable pub on_part : (S → T) → (S → T → S) → M T E A → M S E A
  on_part get put m s = widened put s (m (get s))

module _ {S E A : Type 0} where
  abbrev pub dropped : (S → S) → S × Result E A → S × Result E A
  dropped rollback (s, ok a) = (s, ok a)
  dropped rollback (s, err e) = (rollback s, err e)

  -- A transaction whose body ends with its commit: on an error on the way it is dropped.
  unfoldable pub transaction : M S E (Unit {0}) → (S → S) → M S E A → M S E A
  transaction begin rollback body = begin >> (λ s. dropped rollback (body s))

module _ {S E : Type 0} where
  -- `maintenance_fault`
  unfoldable pub maintenance_fault : Option FaultPoint → FaultPoint → M S (StoreError E) (Unit {0})
  maintenance_fault at point = fail_if (is_at at point) (maintenance (fault point))

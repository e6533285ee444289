-- ===== src/Store/Monad/Post.antt =====
-- What a call leaves, on success and on an error, composed as the calls are: for the functions of
-- crates/project-store/src/lib.rs.
use stitch_editor.Prelude.{◌≡◌, refl, subst, Bool, true, false}
use stitch_editor.Prelude.Result.{Result, ok, err}
use stitch_editor.Store.Monad.{
  M, continue, ◌>>=◌, fail_if, converted, converting, widened, on_part, dropped, transaction,
}

pub data Post {S E A : Type 0} (Q : A → S → Type 0) (R : E → S → Type 0)
    : S × Result E A → Type 0 where
  post_ok : {a : A} {s : S} → Q a s → Post Q R (s, ok a)
  post_err : {e : E} {s : S} → R e s → Post Q R (s, err e)

module _ {S E A : Type 0} {Q : A → S → Type 0} {R : E → S → Type 0} where
  -- From what is known of the two results.
  pub Post-of :
      (x : S × Result E A)
      → ((a : A) → x.1 ≡ ok a → Q a x.0)
      → ((e : E) → x.1 ≡ err e → R e x.0)
      → Post Q R x
  Post-of (s, ok a) f g = post_ok (f a refl)
  Post-of (s, err e) f g = post_err (g e refl)

  pub Post-weaken :
      {Q' : A → S → Type 0} {R' : E → S → Type 0} (x : S × Result E A)
      → Post Q R x
      → ((a : A) (s : S) → Q a s → Q' a s)
      → ((e : E) (s : S) → R e s → R' e s)
      → Post Q' R' x
  Post-weaken (s, ok a) (post_ok h) f g = post_ok (f a s h)
  Post-weaken (s, err e) (post_err h) f g = post_err (g e s h)

  pub Post-ok : (x : S × Result E A) (a : A) → x.1 ≡ ok a → Post Q R x → Q a x.0
  Post-ok (s, ok b) a e (post_ok h) = subst (λ d. Q d s) (cc e) h
  Post-ok (s, err b) a e h = cc e

  pub Post-err : (x : S × Result E A) (b : E) → x.1 ≡ err b → Post Q R x → R b x.0
  Post-err (s, ok b) a e h = cc e
  Post-err (s, err b) a e (post_err h) = subst (λ d. R d s) (cc e) h

module _ {S E A B : Type 0} {P : A → S → Type 0} {Q : B → S → Type 0} {R : E → S → Type 0} where
  Post-continue :
      (f : A → M S E B) (x : S × Result E A)
      → Post P R x
      → ((a : A) (s : S) → P a s → Post Q R (f a s))
      → Post Q R (continue f x)
  Post-continue f (s, ok a) (post_ok h) k = k a s h
  Post-continue f (s, err e) (post_err h) k = post_err h

  pub Post-bind :
      (m : M S E A) (f : A → M S E B) (s : S)
      → Post P R (m s)
      → ((a : A) (t : S) → P a t → Post Q R (f a t))
      → Post Q R ((m >>= f) s)
  unfolding ◌>>=◌
  Post-bind m f s h k = Post-continue f (m s) h k

module _ {S E F A : Type 0} {Q : A → S → Type 0} {R : F → S → Type 0} where
  Post-converted :
      (f : E → F) (x : S × Result E A) → Post Q (λ e s. R (f e) s) x → Post Q R (converted f x)
  Post-converted f (s, ok a) (post_ok h) = post_ok h
  Post-converted f (s, err e) (post_err h) = post_err h

  pub Post-converting :
      (f : E → F) (m : M S E A) (s : S)
      → Post Q (λ e s. R (f e) s) (m s)
      → Post Q R (converting f m s)
  unfolding converting
  Post-converting f m s h = Post-converted f (m s) h

module _ {S T E A : Type 0} {Q : A → S → Type 0} {R : E → S → Type 0} where
  Post-widened :
      (put : S → T → S) (s : S) (x : T × Result E A)
      → Post (λ a t. Q a (put s t)) (λ e t. R e (put s t)) x
      → Post Q R (widened put s x)
  Post-widened put s (t, ok a) (post_ok h) = post_ok h
  Post-widened put s (t, err e) (post_err h) = post_err h

  pub Post-on_part :
      (get : S → T) (put : S → T → S) (m : M T E A) (s : S)
      → Post (λ a t. Q a (put s t)) (λ e t. R e (put s t)) (m (get s))
      → Post Q R (on_part get put m s)
  unfolding on_part
  Post-on_part get put m s h = Post-widened put s (m (get s)) h

module _ {S E A : Type 0} {Q : A → S → Type 0} {R : E → S → Type 0} {R' : E → S → Type 0} where
  Post-dropped :
      (rollback : S → S) (x : S × Result E A)
      → Post Q R' x
      → ((e : E) (s : S) → R' e s → R e (rollback s))
      → Post Q R (dropped rollback x)
  Post-dropped rollback (s, ok a) (post_ok h) k = post_ok h
  Post-dropped rollback (s, err e) (post_err h) k = post_err (k e s h)

  pub Post-transaction :
      {P : S → Type 0} (begin : M S E (Unit {0})) (rollback : S → S) (body : M S E A) (s : S)
      → Post (λ _ t. P t) R (begin s)
      → ((t : S) → P t → Post Q R' (body t))
      → ((e : E) (t : S) → R' e t → R e (rollback t))
      → Post Q R (transaction begin rollback body s)
  unfolding transaction
  Post-transaction {P = P} begin rollback body s h k undo =
      Post-bind {P = λ _ t. P t} begin (λ _ t. dropped rollback (body t)) s h
        (λ _ t p. Post-dropped rollback (body t) (k t p) undo)

module _ {S E : Type 0} {Q : Unit {0} → S → Type 0} {R : E → S → Type 0} where
  pub Post-fail_if :
      (test : Bool) (e : E) (s : S)
      → (test ≡ true → R e s)
      → (test ≡ false → Q tt s)
      → Post Q R (fail_if test e s)
  Post-fail_if true e s f g = post_err (f refl)
  Post-fail_if false e s f g = post_ok (g refl)

-- What holds of the state after either result.
pub Post-state :
    {S E A : Type 0} {P : S → Type 0} (x : S × Result E A)
    → Post (λ a t. P t) (λ e t. P t) x
    → P x.0
Post-state (s, ok a) (post_ok h) = h
Post-state (s, err e) (post_err h) = h

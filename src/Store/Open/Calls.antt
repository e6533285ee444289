-- ===== src/Store/Open/Calls.antt =====
-- The calls that `open_state` of crates/project-store/src/lib.rs makes, by what they leave.
use stitch_editor.Prelude.{◌≡◌, refl, sym, ◌∙◌, ap, Bool, false, Option, none, some}
use stitch_editor.Prelude.Result.{Result, ok}
use stitch_editor.Wire.Bytes.{Bytes}
use stitch_editor.Store.{StoreError, sql}
use stitch_editor.Store.Database.{Database}
use stitch_editor.Store.Host.{Host, Lawful, IsSame}
use stitch_editor.Store.Host.Rules.{Outside, Inside}
use stitch_editor.Store.Host.Calls.{query_call}
use stitch_editor.Store.Monad.{M, converting, fail_if}
use stitch_editor.Store.Monad.Post.{
  Post, Post-of, Post-weaken, Post-bind, Post-fail_if, Post-converting,
}
use stitch_editor.Store.Open.{verify_runtime, configure_connection, check_settings, check_integrity}

-- The documented behaviour of the calls that only opening makes: a new connection is outside of a
-- transaction, and a pragma or a `SELECT` that is read leaves the tables alone.
pub record Opens (host : Host) : Type 0 where
  pub open_connection-saved :
      (path : Bytes) (w : host.World) (c : host.Connection)
      → (host.open_connection path w).1 ≡ ok c
      → host.saved (host.open_connection path w).0 c ≡ none
  pub query_text-IsSame :
      (text : Bytes) (c : host.Connection) (w : host.World)
      → IsSame host c w (host.query_text text c w).0
  pub query_texts-IsSame :
      (text : Bytes) (c : host.Connection) (w : host.World)
      → IsSame host c w (host.query_texts text c w).0
  pub query_integer-IsSame :
      (text : Bytes) (c : host.Connection) (w : host.World)
      → IsSame host c w (host.query_integer text c w).0
  pub query_optional-IsSame :
      (text : Bytes) (c : host.Connection) (w : host.World)
      → IsSame host c w (host.query_optional text c w).0

module _ (host : Host) (laws : Lawful host) (opens : Opens host) (c : host.Connection) where
  open host use {
    World, Connection, Error, query, execute, begin_immediate, commit_transaction, rollback,
    execute_batch, query_text, query_texts, query_integer, query_optional,
  }

  abbrev pub Out : Database → World → Type 0
  Out = Outside host laws c false

  -- Nothing is said of an error.
  abbrev pub Ends :
      {A : Type 0} → (A → World → Type 0) → World × Result (StoreError Error) A → Type 0
  Ends Q = Post Q (λ e t. Unit)

  -- A call that leaves the tables alone.
  pub quiet :
      {A : Type 0} (m : M World Error A) (db : Database) (w : World)
      → IsSame host c w (m w).0
      → Out db w
      → Ends (λ a t. Out db t) (converting sql m w)
  quiet m db w same out = Post-converting sql m w (Post-of (m w) (λ a e. kept) (λ e h. tt))
    where
      kept : Out db (m w).0
      kept = record {
        out_saved = same.same_saved ∙ out.out_saved;
        out_database = same.same_database ∙ out.out_database;
        out_sound = λ s. cc s;
      }

  pub reads :
      {A : Type 0} (f : Database → A) (db : Database) (w : World)
      → Out db w
      → Ends (λ a t. (a ≡ f db) × Out db t) (converting sql (query f c) w)
  reads f db w out =
      Post-weaken _ (query_call host laws c false (λ e. Unit) sql (λ e h. tt) f db w out)
        (λ a t h. h) (λ e t h. tt)

  -- A statement in a transaction, where it succeeds.
  pub writes :
      (f : Database → Option Database) (start db : Database) (w : World)
      → Inside host laws c false start db w
      → Ends
          (λ _ t. (next : Database) × (f db ≡ some next) × Inside host laws c false start next t)
          (converting sql (execute f c) w)
  writes f start db w within = Post-converting sql (execute f c) w (
      Post-of (execute f c w)
        (λ u e. (
          host.database (execute f c w).0 c,
          ap f (sym within.in_database) ∙ laws.execute-ok f c w e,
          record {
            in_saved = laws.execute-saved f c w e ∙ within.in_saved;
            in_database = refl;
            in_sound = λ s. cc s;
          },
        ))
        (λ e h. tt))

  pub requires :
      (test : Bool) (e : StoreError Error) (db : Database) (w : World)
      → Out db w
      → Ends (λ _ t. (test ≡ false) × Out db t) (fail_if test e w)
  requires test e db w out = Post-fail_if test e w (λ h. tt) (λ h. (h, out))

  pub verify_runtime-Post :
      (db : Database) (w : World) → Out db w → Ends (λ _ t. Out db t) (verify_runtime host c w)
  unfolding verify_runtime
  verify_runtime-Post db w out =
      Post-bind _ _ w (quiet _ db w (opens.query_text-IsSame _ c w) out) λ version w1 h1.
        Post-bind _ _ w1 (quiet _ db w1 (opens.query_text-IsSame _ c w1) h1) λ source w2 h2.
          Post-bind _ _ w2 (quiet _ db w2 (opens.query_texts-IsSame _ c w2) h2)
            λ options w3 h3. Post-weaken _ (requires _ _ db w3 h3) (λ a t h. h.1) (λ e t h. h)

  pub check_settings-Post :
      (db : Database) (w : World) → Out db w → Ends (λ _ t. Out db t) (check_settings host c w)
  unfolding check_settings
  check_settings-Post db w out =
      Post-bind _ _ w (quiet _ db w (opens.query_text-IsSame _ c w) out) λ mode w1 h1.
        Post-bind _ _ w1 (quiet _ db w1 (opens.query_integer-IsSame _ c w1) h1) λ sync w2 h2.
          Post-bind _ _ w2 (quiet _ db w2 (opens.query_integer-IsSame _ c w2) h2)
            λ checkpoint w3 h3. Post-weaken _ (requires _ _ db w3 h3) (λ a t h. h.1) (λ e t h. h)

  pub check_integrity-Post :
      (db : Database) (w : World) → Out db w → Ends (λ _ t. Out db t) (check_integrity host c w)
  unfolding check_integrity
  check_integrity-Post db w out =
      Post-bind _ _ w (quiet _ db w (opens.query_text-IsSame _ c w) out) λ quick_check w1 h1.
        Post-bind _ _ w1 (quiet _ db w1 (opens.query_optional-IsSame _ c w1) h1)
          λ error w2 h2. Post-weaken _ (requires _ _ db w2 h2) (λ a t h. h.1) (λ e t h. h)

  pub configure_connection-Post :
      (db : Database) (w : World)
      → Out db w
      → Ends (λ _ t. Out db t) (configure_connection host c w)
  unfolding configure_connection
  configure_connection-Post db w out = quiet _ db w (laws.settings-IsSame c w) out

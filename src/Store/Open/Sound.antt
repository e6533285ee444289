-- ===== src/Store/Open/Sound.antt =====
-- What `open_state` of crates/project-store/src/lib.rs has opened.
use stitch_editor.Prelude.{◌≡◌, refl, sym, ◌∙◌, ap, Bool, true, false, not, none, length}
use stitch_editor.Prelude.Result.{ok}
use stitch_editor.Wire.Bytes.{Bytes}
use stitch_editor.Crates.Im.{Im, Sha256}
use stitch_editor.Store.{StoreError, sql}
use stitch_editor.Store.Database.{Database}
use stitch_editor.Store.Host.{Host, Lawful}
use stitch_editor.Store.Host.Rules.{Outside}
use stitch_editor.Store.Monad.{converting}
use stitch_editor.Store.Monad.Post.{
  Post, post_ok, Post-of, Post-ok, Post-weaken, Post-bind, Post-converting,
}
use stitch_editor.Store.Maintenance.{State}
use stitch_editor.Store.Restore.Sound.{restore-Post, IsReplay}
use stitch_editor.Store.Open.{
  expected_schema, same_schema, is_metadata, validate_schema, open_state,
}
use stitch_editor.Store.Open.Calls.{
  Opens, Ends, reads, requires, verify_runtime-Post, check_settings-Post, check_integrity-Post,
  configure_connection-Post,
}
use stitch_editor.Store.Open.Initialize.{IsMarked, initialize_if-Post}

module _ (host : Host) (laws : Lawful host) (opens : Opens host) (c : host.Connection) where
  open host use {
    World, Connection, Error, query, execute, begin_immediate, commit_transaction, rollback,
    execute_batch, query_text, query_texts, query_integer, query_optional,
  }

  -- The tables have the expected schema and the metadata that names it.
  abbrev Fits : Database → Type 0
  Fits db = (same_schema db.schema expected_schema ≡ true) × (is_metadata db.metadata ≡ true)

  accepted : (b : Bool) → not b ≡ false → b ≡ true
  accepted true h = refl
  accepted false h = sym h

  validate_schema-Post :
      (db : Database) (w : World)
      → Outside host laws c false db w
      → Ends host laws opens c
          (λ _ t. Fits db × Outside host laws c false db t)
          (validate_schema host c w)
  unfolding validate_schema
  validate_schema-Post db w out =
      Post-bind _ _ w (reads host laws opens c (λ d. d.schema) db w out) λ actual w1 h1.
        Post-bind _ _ w1 (requires host laws opens c _ _ db w1 h1.1) λ _ w2 h2.
          Post-bind _ _ w2 (reads host laws opens c (λ d. d.metadata) db w2 h2.1) λ metadata w3 h3.
            Post-weaken _ (requires host laws opens c _ _ db w3 h3.1)
              (λ a t h. (
                (
                  ap (λ s. same_schema s expected_schema) (sym h1.0) ∙ accepted _ h2.0,
                  ap is_metadata (sym h3.0) ∙ accepted _ h.0,
                ),
                h.1,
              ))
              (λ e t h. h)

-- A marked database with the schema, whose log replays to what the worker starts with.
pub record Opened (host : Host) (laws : Lawful host) (im : Im) (sha : Sha256) (path : Bytes)
    (state : State im host) (w : host.World) : Type 0 where
  pub holds : Database
  pub opened_outside : Outside host laws state.connection false holds w
  pub opened_marks : IsMarked holds
  pub opened_schema : same_schema holds.schema expected_schema ≡ true
  pub opened_metadata : is_metadata holds.metadata ≡ true
  pub opened_replay : IsReplay im sha holds.revisions state.project state.head state.sequence
  pub opened_path : state.database_path ≡ path
  pub opened_failure : state.maintenance_failure ≡ none

module _ (host : Host) (laws : Lawful host) (opens : Opens host) (im : Im) (sha : Sha256)
    (path : Bytes) where
  connected :
      (w : host.World)
      → Post
          (λ c t. Outside host laws c false (host.database t c) t)
          (λ e t. Unit)
          (converting {F = StoreError host.Error} sql (host.open_connection path) w)
  connected w = Post-converting sql _ w (
      Post-of (host.open_connection path w)
        (λ c e. record {
          out_saved = opens.open_connection-saved path w c e;
          out_database = refl;
          out_sound = λ s. cc s;
        })
        (λ e h. tt))

  open_state-Post :
      (w : host.World)
      → Post
          (λ state t. Opened host laws im sha path state t)
          (λ e t. Unit)
          (open_state host im sha path w)
  unfolding open_state
  open_state-Post w = Post-bind _ _ w (connected w) λ c w1 h1.
      Post-bind _ _ w1 (verify_runtime-Post host laws opens c _ w1 h1) λ _ w2 h2.
        Post-bind _ _ w2 (reads host laws opens c (λ d. d.application_id) _ w2 h2) λ id w3 h3.
          Post-bind _ _ w3 (reads host laws opens c (λ d. d.user_version) _ w3 h3.1)
            λ version w4 h4.
              Post-bind _ _ w4 (reads host laws opens c (λ d. length d.schema) _ w4 h4.1)
                λ objects w5 h5.
                  Post-bind _ _ w5
                    (initialize_if-Post host laws opens c _ id version objects w5 h3.0 h4.0 h5.1)
                    λ _ w6 (db, marked, h6).
                      Post-bind _ _ w6 (configure_connection-Post host laws opens c db w6 h6)
                        λ _ w7 h7.
                          Post-bind _ _ w7 (validate_schema-Post host laws opens c db w7 h7)
                            λ _ w8 h8.
                              Post-bind _ _ w8 (check_settings-Post host laws opens c db w8 h8.1)
                                λ _ w9 h9.
                                  Post-bind _ _ w9 (check_integrity-Post host laws opens c db w9 h9)
                                    λ _ w10 h10.
                                      Post-bind _ _ w10 (restore-Post host laws im sha c db w10 h10)
                                        λ restored w11 h11. post_ok (record {
                                          holds = db;
                                          opened_outside = h11.1;
                                          opened_marks = marked;
                                          opened_schema = h8.0.0;
                                          opened_metadata = h8.0.1;
                                          opened_replay = h11.0;
                                          opened_path = refl;
                                          opened_failure = refl;
                                        })

  -- Where opening a path succeeds, the database of the new connection, outside of a transaction,
  -- is marked as a project, has the expected schema and metadata, and its revisions replay to the
  -- project, head and sequence that the worker starts with, which is of that path and has no
  -- failure of maintenance.
  pub open_state-Opened :
      (w : host.World) (state : State im host)
      → (open_state host im sha path w).1 ≡ ok state
      → Opened host laws im sha path state (open_state host im sha path w).0
  open_state-Opened w state h = Post-ok (open_state host im sha path w) state h (open_state-Post w)

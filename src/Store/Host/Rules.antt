-- ===== src/Store/Host/Rules.antt =====
-- The calls of crates/project-store/src/lib.rs on the database, by what they leave.
use stitch_editor.Prelude.{◌≡◌, refl, sym, ◌∙◌, ap, Bool, true, false, Option, none, some}
use stitch_editor.Prelude.Result.{Result, ok, err}
use stitch_editor.Store.Database.{Database}
use stitch_editor.Store.Host.{Host, Lawful, IsSame, at_rest, resting}
use stitch_editor.Store.Monad.Post.{Post, Post-of}

module _ (host : Host) (laws : Lawful host) (c : host.Connection) where
  open host use {
    World, Connection, Error, database, saved, query, execute, begin_immediate, commit_transaction,
    rollback, IsSound,
  }

  -- Outside of a transaction, inside one that began at `start`, and where a rollback gives `start`
  -- back; in a sound world where `sound` says so.
  pub record Outside (sound : Bool) (db : Database) (w : World) : Type 0 where
    pub out_saved : saved w c ≡ none
    pub out_database : database w c ≡ db
    pub out_sound : sound ≡ true → IsSound w c

  pub record Inside (sound : Bool) (start db : Database) (w : World) : Type 0 where
    pub in_saved : saved w c ≡ some start
    pub in_database : database w c ≡ db
    pub in_sound : sound ≡ true → IsSound w c

  pub record Undoable (sound : Bool) (start : Database) (w : World) : Type 0 where
    pub undo_rest : at_rest host w c ≡ start
    pub undo_sound : sound ≡ true → IsSound w c

  -- A call that succeeds in a sound world fails in none that is known to be sound.
  not_failed :
      {A : Type 0} (sound : Bool) (w : World) (x : World × Result Error A) (e : Error) (a : A)
      → (sound ≡ true → IsSound w c)
      → x.1 ≡ err e
      → (IsSound w c → x.1 ≡ ok a)
      → sound ≡ false
  not_failed false w x e a h fails works = refl
  not_failed true w x e a h fails works = cc (fails, works (h refl))

  -- So its world is sound, vacuously.
  pub vacuous : (sound : Bool) (w : World) → sound ≡ false → sound ≡ true → IsSound w c
  vacuous sound w e h = cc (e, h)

  after_same :
      (sound : Bool) (db : Database) (w t : World)
      → Outside sound db w
      → IsSame host c w t
      → (sound ≡ true → IsSound t c)
      → Outside sound db t
  after_same sound db w t h same kept = record {
    out_saved = same.same_saved ∙ h.out_saved;
    out_database = same.same_database ∙ h.out_database;
    out_sound = kept;
  }

  pub query-Post :
      {A : Type 0} (sound : Bool) (f : Database → A) (db : Database) (w : World)
      → Outside sound db w
      → Post
          (λ a t. (a ≡ f db) × Outside sound db t)
          (λ e t. (sound ≡ false) × Outside sound db t)
          (query f c w)
  query-Post sound f db w h =
      Post-of (query f c w)
        (λ a e. (
          laws.query-ok f c w a e ∙ ap f h.out_database,
          after_same sound db w (query f c w).0 h (laws.query-IsSame f c w)
              (λ s. (laws.query-IsSound f c w (h.out_sound s)).1),
        ))
        (λ e fails.
          let failed =
            not_failed sound w (query f c w) e (f (database w c)) h.out_sound fails
              (λ s. (laws.query-IsSound f c w s).0) in
          (
            failed,
            after_same sound db w (query f c w).0 h (laws.query-IsSame f c w)
                (vacuous sound (query f c w).0 failed),
          ))

  pub Inside-Undoable :
      (sound : Bool) (start db : Database) (w : World)
      → Inside sound start db w
      → Undoable sound start w
  unfolding at_rest
  Inside-Undoable sound start db w h = record {
    undo_rest = ap (λ before. resting before (database w c)) h.in_saved;
    undo_sound = h.in_sound;
  }

  pub begin-Post :
      (sound : Bool) (db : Database) (w : World)
      → Outside sound db w
      → Post
          (λ _ t. Inside sound db db t)
          (λ e t. (sound ≡ false) × Outside sound db t)
          (begin_immediate c w)
  begin-Post sound db w h =
      Post-of (begin_immediate c w)
        (λ u e.
          let (kept, there) = laws.begin-ok c w e in
          record {
            in_saved = kept ∙ ap some h.out_database;
            in_database = there ∙ h.out_database;
            in_sound = λ s. (laws.begin-IsSound c w (h.out_sound s) h.out_saved).1;
          })
        (λ e fails.
          let failed =
            not_failed sound w (begin_immediate c w) e tt h.out_sound fails
              (λ s. (laws.begin-IsSound c w s h.out_saved).0) in
          (
            failed,
            after_same sound db w (begin_immediate c w).0 h (laws.begin-err c w e fails)
                (vacuous sound (begin_immediate c w).0 failed),
          ))

  some_injective : (a b : Database) → some a ≡ some b → a ≡ b
  some_injective a b h = cc h

  pub execute-Post :
      (sound : Bool) (f : Database → Option Database) (start db next : Database) (w : World)
      → Inside sound start db w
      → f db ≡ some next
      → Post
          (λ _ t. Inside sound start next t)
          (λ e t. (sound ≡ false) × Undoable sound start t)
          (execute f c w)
  execute-Post sound f start db next w h applies =
      Post-of (execute f c w)
        (λ u e. record {
          in_saved = laws.execute-saved f c w e ∙ h.in_saved;
          in_database =
              some_injective _ _ (sym (laws.execute-ok f c w e) ∙ ap f h.in_database ∙ applies);
          in_sound = λ s. (laws.execute-IsSound f c w next (h.in_sound s) here).1;
        })
        (λ e fails.
          let failed =
            not_failed sound w (execute f c w) e tt h.in_sound fails
              (λ s. (laws.execute-IsSound f c w next s here).0) in
          (
            failed,
            record {
              undo_rest =
                  laws.execute-err f c w e fails ∙ (Inside-Undoable sound start db w h).undo_rest;
              undo_sound = vacuous sound (execute f c w).0 failed;
            },
          ))
    where
      here : f (database w c) ≡ some next
      here = ap f h.in_database ∙ applies

  pub commit-Post :
      (sound : Bool) (start db : Database) (w : World)
      → Inside sound start db w
      → Post
          (λ _ t. Outside sound db t)
          (λ e t. (sound ≡ false) × Undoable sound start t)
          (commit_transaction c w)
  commit-Post sound start db w h =
      Post-of (commit_transaction c w)
        (λ u e.
          let (ended, there) = laws.commit-ok c w e in
          record {
            out_saved = ended;
            out_database = there ∙ h.in_database;
            out_sound = λ s. (laws.commit-IsSound c w (h.in_sound s)).1;
          })
        (λ e fails.
          let failed =
            not_failed sound w (commit_transaction c w) e tt h.in_sound fails
              (λ s. (laws.commit-IsSound c w s).0) in
          (
            failed,
            record {
              undo_rest =
                  laws.commit-err c w e fails ∙ (Inside-Undoable sound start db w h).undo_rest;
              undo_sound = vacuous sound (commit_transaction c w).0 failed;
            },
          ))

  pub rollback-Outside :
      (sound : Bool) (start : Database) (w : World)
      → Undoable sound start w
      → Outside sound start (rollback c w)
  rollback-Outside sound start w h =
      let (ended, there) = laws.rollback-rest c w in
      record {
        out_saved = ended;
        out_database = there ∙ h.undo_rest;
        out_sound = λ s. laws.rollback-IsSound c w (h.undo_sound s);
      }

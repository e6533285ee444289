-- ===== src/Store/Worker/Durable.antt =====
-- Runs of `ProjectStore` of crates/project-store/src/lib.rs and `restore` after them.
use stitch_editor.Prelude.{ℕ, ◌≡◌, ap, subst, true, false, Option, List, [], ◌∷◌}
use stitch_editor.Prelude.Result.{Result, ok, err}
use stitch_editor.Ids.{RevisionHash}
use stitch_editor.Crates.Im.{Im, Sha256}
use stitch_editor.Model.Project.{Project}
use stitch_editor.Store.{StoreError}
use stitch_editor.Store.Database.{Database, last_snapshot}
use stitch_editor.Store.Host.{Host, Lawful}
use stitch_editor.Store.Host.Rules.{Outside}
use stitch_editor.Store.Monad.Post.{Post, post_ok, post_err}
use stitch_editor.Store.Commit.{Running}
use stitch_editor.Store.Commit.Outcome.{Holds}
use stitch_editor.Store.Restore.{restore}
use stitch_editor.Store.Restore.Accepts.{IsReadable, restore-Reads}
use stitch_editor.Store.Log.Stored.{Stored}
use stitch_editor.Store.Worker.{
  Work, commit, receipt, snapshot, checkpoint, compact_store, archive, shutdown, ProjectStore,
  open_store, closed_store, request, serve,
}
use stitch_editor.Store.Worker.Runs.{IsServed, AllServed, HoldsSome, handle-HoldsSome}

module _ (host : Host) (laws : Lawful host) (im : Im) (sha : Sha256) where
  open host use {World, Connection, Error, IsSound, database}

  -- The database holds a log, that of the worker's state where it runs.
  abbrev pub Survives : ProjectStore host im sha → Type 0
  Survives (open_store running) = HoldsSome host laws im sha running
  Survives (closed_store world) =
      (c : Connection) × (db : Database) × (project : Project im) × (head : Option RevisionHash)
      × (sequence : ℕ) × Outside host laws c false db world
      × Stored im sha db project head sequence

  request-Survives :
      (work : Work) (store : ProjectStore host im sha)
      → IsServed work
      → Survives store
      → Survives (request host im sha work store).0
  unfolding request
  request-Survives work (closed_store world) served h = h
  request-Survives shutdown (open_store running) served h = (
    running.state.connection, h.0, running.state.project, running.state.head,
    running.state.sequence, h.1.outside, h.1.stored,
  )
  request-Survives (commit request_id command at) (open_store running) served h =
      handle-HoldsSome host laws im sha (commit request_id command at) running served h
  request-Survives (receipt request_id) (open_store running) served h =
      handle-HoldsSome host laws im sha (receipt request_id) running served h
  request-Survives (snapshot at) (open_store running) served h =
      handle-HoldsSome host laws im sha (snapshot at) running served h
  request-Survives (checkpoint at) (open_store running) served h =
      handle-HoldsSome host laws im sha (checkpoint at) running served h
  request-Survives (compact_store at) (open_store running) served h =
      handle-HoldsSome host laws im sha (compact_store at) running served h
  request-Survives (archive destination at) (open_store running) served h = cc served

  -- Any run of commits, receipt queries, snapshots, checkpoints, compactions and shutdowns,
  -- whichever calls on the database fail and whichever faults are injected, leaves the database
  -- outside of a transaction and holding a log, that of the state of the worker where it still
  -- runs.
  pub serve-Survives :
      (works : List Work) (store : ProjectStore host im sha)
      → AllServed works
      → Survives store
      → Survives (serve host im sha works store).0
  unfolding serve
  serve-Survives [] store served h = h
  serve-Survives (work ∷ rest) store served h =
      serve-Survives rest (request host im sha work store).0 served.1
        (request-Survives work store served.0 h)

  restored :
      (running : Running im host)
      → HoldsSome host laws im sha running
      → IsSound running.world running.state.connection
      → IsReadable im sha
          (last_snapshot (database running.world running.state.connection).snapshots)
      → (restore host im sha running.state.connection running.world).1
        ≡ ok (running.state.project, running.state.head, running.state.sequence)
  restored running (db, h) sound readable = of_reads _ (
      restore-Reads host laws im sha running.state.connection true db _ _ _ running.world h.stored
        (subst (λ d. IsReadable im sha (last_snapshot d.snapshots)) h.outside.out_database readable)
        (record {
          out_saved = h.outside.out_saved;
          out_database = h.outside.out_database;
          out_sound = λ e. sound;
        }))
    where
      of_reads :
          {A : Type 0} {a : A} {Q : World → Type 0} {R : World → Type 0}
          (x : World × Result (StoreError Error) A)
          → Post (λ b t. (b ≡ a) × Q t) (λ e t. (true ≡ false) × R t) x
          → x.1 ≡ ok a
      of_reads (w, ok b) (post_ok k) = ap ok k.0
      of_reads (w, err e) (post_err k) = cc k.0

  -- Where a store holds a log, after any run of commits, receipt queries, snapshots, checkpoints,
  -- compactions and shutdowns, whichever calls on the database fail and whichever faults are
  -- injected, if the store is still open, its world sound and its newest snapshot readable,
  -- restore gives the project, the head and the sequence that the worker has in memory.
  pub serve-restore :
      (works : List Work) (running after : Running im host) (db : Database)
      → Holds host laws im sha false db running
      → AllServed works
      → (serve host im sha works (open_store running)).0 ≡ open_store after
      → IsSound after.world after.state.connection
      → IsReadable im sha (last_snapshot (database after.world after.state.connection).snapshots)
      → (restore host im sha after.state.connection after.world).1
        ≡ ok (after.state.project, after.state.head, after.state.sequence)
  serve-restore works running after db holds served e sound readable =
      restored after
        (subst Survives e (serve-Survives works (open_store running) served (db, holds))) sound
        readable

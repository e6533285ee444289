-- ===== src/Store/Worker/Runs.antt =====
-- Runs of the worker of crates/project-store/src/lib.rs on a store that holds a log.
use stitch_editor.Prelude.{
  ◌%◌, ◌≡◌, true, false, ◌&&◌, Option, none, some, List, [], ◌∷◌, ◌==◌, length, inl, inr,
  Bool-cases,
}
use stitch_editor.Prelude.Result.{Result, ok, err}
use stitch_editor.Crates.Im.{Im, Sha256}
use stitch_editor.Model.Command.{Command, IsCommand}
use stitch_editor.Store.{
  RequestId, StoreError, MaintenanceError, FaultPoint, CommitReceipt, maintenance, sql, model,
  ambiguous, request_conflict, injected, unsupported_sqlite, runtime_mismatch, corrupt_store,
  worker_stopped, snapshot_interval,
}
use stitch_editor.Store.Database.{Database, ReceiptRow}
use stitch_editor.Store.Host.{Host, Lawful}
use stitch_editor.Store.Host.Rules.{Outside}
use stitch_editor.Store.Host.Calls.{query_call}
use stitch_editor.Store.Monad.Post.{Post, post_ok, Post-weaken, Post-bind, Post-of, Post-state}
use stitch_editor.Store.Maintenance.{State, Db, persist_snapshot, compact}
use stitch_editor.Store.Maintenance
use stitch_editor.Store.Maintenance.Keeps.{
  Kept, Keeps, persist_snapshot-Keeps, compact-Keeps, checkpoint-Keeps,
}
use stitch_editor.Store.Commit.{Running}
use stitch_editor.Store.Commit
use stitch_editor.Store.Commit.Outcome.{Holds, Done, now, before, Undone, lost, refused}
use stitch_editor.Store.Commit.Outcome.Steps.{commit-Post}
use stitch_editor.Store.Log.Snapshots.{KeepsLog-refl}
use stitch_editor.Store.Worker.{
  Work, commit, receipt, snapshot, checkpoint, compact_store, archive, shutdown, Response,
  note_failure, unless_failed, after_commit, commit_work, handle, in_world, snapshot_noted,
  snapshot_answered, answered, is_ok, found, checkpointed, done,
}

-- A piece of work with arguments of their types, which is not an archive.
abbrev pub IsServed : Work → Type 0
IsServed (commit request_id command at) = IsCommand command × (length request_id ≡ 16)
IsServed (archive destination at) = true ≡ false
IsServed _ = Unit

abbrev pub AllServed : List Work → Type 0
AllServed [] = Unit
AllServed (work ∷ rest) = IsServed work × AllServed rest

module _ (host : Host) (laws : Lawful host) (im : Im) (sha : Sha256) where
  open host use {World, Connection, Error}

  abbrev pub HoldsSome : Running im host → Type 0
  HoldsSome running = (db : Database) × Holds host laws im sha false db running

  note_failure-HoldsSome :
      {A : Type 0} (result : Result (StoreError Error) A) (running : Running im host)
      → HoldsSome running
      → HoldsSome (note_failure host im sha result running)
  unfolding note_failure
  note_failure-HoldsSome (ok a) running h = h
  note_failure-HoldsSome (err (maintenance error)) running h =
      (h.0, record { outside = h.1.outside; stored = h.1.stored })
  note_failure-HoldsSome (err (sql e)) running h = h
  note_failure-HoldsSome (err (model e)) running h = h
  note_failure-HoldsSome (err (ambiguous r)) running h = h
  note_failure-HoldsSome (err (request_conflict r)) running h = h
  note_failure-HoldsSome (err (injected p)) running h = h
  note_failure-HoldsSome (err (unsupported_sqlite v)) running h = h
  note_failure-HoldsSome (err runtime_mismatch) running h = h
  note_failure-HoldsSome (err corrupt_store) running h = h
  note_failure-HoldsSome (err worker_stopped) running h = h

  abbrev KeptBy : Running im host → Database → World → Type 0
  KeptBy running db = Kept host laws im sha running.state db

  to_kept :
      (running : Running im host) (db : Database)
      → Holds host laws im sha false db running
      → KeptBy running db running.world
  to_kept running db h = record {
    kept_db = db;
    kept_outside = h.outside;
    kept_log = KeepsLog-refl im sha db _ _ _ h.stored;
  }

  from_kept :
      (running : Running im host) (db : Database) (w : World)
      → KeptBy running db w
      → HoldsSome (in_world host im sha running w)
  from_kept running db w kept =
      (kept.kept_db, record { outside = kept.kept_outside; stored = kept.kept_log.kept_stored })

  -- What a call that keeps the log leaves behind.
  world-HoldsSome :
      {A : Type 0} (running : Running im host) (db : Database)
      (x : World × Result (StoreError Error) A)
      → Keeps host laws im sha running.state db x
      → HoldsSome (in_world host im sha running x.0)
  world-HoldsSome running db x keeps =
      from_kept running db x.0 (Post-state x (Post-weaken x keeps (λ a t k. k) (λ e t k. k.1)))

  unless_failed-Keeps :
      {A : Type 0} (running : Running im host) (db : Database) (failure : Option MaintenanceError)
      (call : Db host A)
      → Holds host laws im sha false db running
      → (KeptBy running db running.world
          → Keeps host laws im sha running.state db (call running.world))
      → HoldsSome
          (in_world host im sha running (unless_failed host im sha failure call running.world).0)
  unfolding unless_failed
  unless_failed-Keeps running db none call h keeps =
      world-HoldsSome running db (call running.world) (keeps (to_kept running db h))
  unless_failed-Keeps running db (some error) call h keeps =
      from_kept running db running.world (to_kept running db h)

  Done-HoldsSome :
      (state : State im host) (db : Database) (request_id : RequestId) (command : Command)
      (at : Option FaultPoint) (after : Running im host) (receipt : CommitReceipt)
      → Done host laws im sha false state db request_id command at after receipt
      → HoldsSome after
  Done-HoldsSome state db r command at after _ (now next a b holds e) = (_, holds)
  Done-HoldsSome state db r command at after _ (before row a b holds e) = (db, holds)

  Undone-HoldsSome :
      (state : State im host) (db : Database) (request_id : RequestId) (command : Command)
      (at : Option FaultPoint) (after : Running im host) (e : StoreError Error)
      → Undone host laws im sha false state db request_id command at after e
      → HoldsSome after
  Undone-HoldsSome state db r command at after _ (lost made a b) =
      Done-HoldsSome state db r command at after _ made
  Undone-HoldsSome state db r command at after _ (refused reason holds same) = (db, holds)

  commit-HoldsSome :
      (running : Running im host) (db : Database) (request_id : RequestId) (command : Command)
      (at : Option FaultPoint)
      → Holds host laws im sha false db running
      → IsCommand command
      → length request_id ≡ 16
      → HoldsSome (Commit.commit host im sha request_id command at running).0
  commit-HoldsSome running db request_id command at h valid sized =
      Post-state {P = HoldsSome} (Commit.commit host im sha request_id command at running) (
        Post-weaken _
          (commit-Post host laws im sha false running db request_id command at h valid sized)
          (λ given t made. Done-HoldsSome running.state db request_id command at t given made)
          (λ e t undone. Undone-HoldsSome running.state db request_id command at t e undone))

  snapshot_noted-HoldsSome :
      (running : Running im host) (x : World × Result (StoreError Error) (Unit {0}))
      → HoldsSome (in_world host im sha running x.0)
      → HoldsSome (snapshot_noted host im sha running x)
  snapshot_noted-HoldsSome running (world, result) h = note_failure-HoldsSome result _ h

  after_commit-HoldsSome :
      (x : Running im host × Result (StoreError Error) CommitReceipt)
      → HoldsSome x.0
      → HoldsSome (after_commit host im sha x).0
  unfolding after_commit
  after_commit-HoldsSome (running, result) h =
      elim (Bool-cases
        (is_ok host im sha result && (running.state.sequence % snapshot_interval == 0))) [
          | inl due ↦ rw due (
              snapshot_noted-HoldsSome running _ (
                world-HoldsSome running h.0 _ (
                  persist_snapshot-Keeps host laws im sha running.state h.0 none running.world
                    (to_kept running h.0 h.1))))
          | inr idle ↦ rw idle h
        ]

  commit_work-HoldsSome :
      (failure : Option MaintenanceError) (running : Running im host) (request_id : RequestId)
      (command : Command) (at : Option FaultPoint)
      → HoldsSome running
      → IsCommand command
      → length request_id ≡ 16
      → HoldsSome (commit_work host im sha failure request_id command at running).0
  unfolding commit_work
  commit_work-HoldsSome none running request_id command at h valid sized =
      after_commit-HoldsSome _ (commit-HoldsSome running h.0 request_id command at h.1 valid sized)
  commit_work-HoldsSome (some error) running request_id command at h valid sized = h

  snapshot_answered-HoldsSome :
      (running : Running im host) (x : World × Result (StoreError Error) (Unit {0}))
      → HoldsSome (in_world host im sha running x.0)
      → HoldsSome (snapshot_answered host im sha running x).0
  snapshot_answered-HoldsSome running (world, result) h = note_failure-HoldsSome result _ h

  answered-HoldsSome :
      {A : Type 0} (response : Result (StoreError Error) A → Response Error)
      (running : Running im host) (x : World × Result (StoreError Error) A)
      → HoldsSome (in_world host im sha running x.0)
      → HoldsSome (answered host im sha response running x).0
  answered-HoldsSome response running (world, result) h = h

  module _ (P : World → Type 0) where
    receipt_of-state :
        (request_id : RequestId) (row : Option ReceiptRow) (w : World)
        → P w
        → Post (λ _ t. P t) (λ _ t. P t) (Commit.receipt_of host request_id row w)
    unfolding Commit.receipt_of
    receipt_of-state request_id none w h = post_ok h
    receipt_of-state request_id (some row) w h =
        Post-bind {P = λ _ t. P t} _ _ w (Post-of _ (λ a e. h) (λ e k. h)) (λ hash t k. post_ok k)

  receipt-HoldsSome :
      (running : Running im host) (request_id : RequestId)
      → HoldsSome running
      → HoldsSome (
          in_world host im sha running
            (Commit.receipt host running.state.connection request_id running.world).0)
  unfolding Commit.receipt
  receipt-HoldsSome running request_id (db, h) =
      let c = running.state.connection in
      let kept =
        Post-bind {P = λ _ t. Outside host laws c false db t} _ _ running.world
          (Post-weaken _
            (query_call host laws c false (λ e. false ≡ false) sql (λ e k. k) _ db running.world
              h.outside)
            (λ a t k. k.1) (λ e t k. k.1))
          (λ row t k. receipt_of-state (Outside host laws c false db) request_id row t k) in
      (
        db,
        record {
          outside = Post-state {P = Outside host laws c false db} _ kept;
          stored = h.stored;
        },
      )

  -- One turn of the loop.
  pub handle-HoldsSome :
      (work : Work) (running : Running im host)
      → IsServed work
      → HoldsSome running
      → HoldsSome (handle host im sha work running).0
  unfolding handle
  handle-HoldsSome (commit request_id command at) running served h =
      commit_work-HoldsSome running.state.maintenance_failure running request_id command at h
        served.0 served.1
  handle-HoldsSome (receipt request_id) running served h =
      answered-HoldsSome found running
        (Commit.receipt host running.state.connection request_id running.world)
        (receipt-HoldsSome running request_id h)
  handle-HoldsSome (snapshot at) running served h = snapshot_answered-HoldsSome running _ (
      unless_failed-Keeps running h.0 running.state.maintenance_failure _ h.1
        (persist_snapshot-Keeps host laws im sha running.state h.0 at running.world))
  handle-HoldsSome (checkpoint at) running served h =
      answered-HoldsSome checkpointed running
        (unless_failed host im sha running.state.maintenance_failure
          (Maintenance.checkpoint host running.state.connection at) running.world)
        (unless_failed-Keeps running h.0 running.state.maintenance_failure _ h.1
          (checkpoint-Keeps host laws im sha running.state h.0 at running.world))
  handle-HoldsSome (compact_store at) running served h =
      answered-HoldsSome done running
        (unless_failed host im sha running.state.maintenance_failure
          (compact host im sha running.state at) running.world)
        (unless_failed-Keeps running h.0 running.state.maintenance_failure _ h.1
          (compact-Keeps host laws im sha running.state h.0 at running.world))
  handle-HoldsSome (archive destination at) running served h = cc served
  handle-HoldsSome shutdown running served h = h

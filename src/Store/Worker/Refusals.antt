-- ===== src/Store/Worker/Refusals.antt =====
-- The worker of crates/project-store/src/lib.rs after a failure of its maintenance.
use stitch_editor.Prelude.{
  ◌%◌, ◌≡◌, refl, sym, ap, subst, true, false, Option, none, some, List, [], ◌∷◌, map, ◌==◌,
}
use stitch_editor.Prelude.Result.{Result, ok, err}
use stitch_editor.Crates.Im.{Im, Sha256}
use stitch_editor.Model.Command.{Command}
use stitch_editor.Store.{
  RequestId, StoreError, MaintenanceError, FaultPoint, CommitReceipt, maintenance,
  snapshot_interval,
}
use stitch_editor.Store.Host.{Host}
use stitch_editor.Store.Maintenance.{Db, persist_snapshot}
use stitch_editor.Store.Commit.{Running}
use stitch_editor.Store.Commit
use stitch_editor.Store.Worker.{
  Work, commit, receipt, snapshot, checkpoint, compact_store, archive, shutdown, Response,
  committed, checkpointed, done, open_store, handle, request, serve, commit_work, unless_failed,
  note_failure, after_commit,
}

-- The work that would change the store or copy it.
abbrev pub IsBlocked : Work → Type 0
IsBlocked (receipt request_id) = true ≡ false
IsBlocked shutdown = true ≡ false
IsBlocked _ = Unit

abbrev pub AllBlocked : List Work → Type 0
AllBlocked [] = Unit
AllBlocked (work ∷ rest) = IsBlocked work × AllBlocked rest

module _ (host : Host) (im : Im) (sha : Sha256) where
  -- The failure, as the response that the caller of the work waits for.
  abbrev pub refusal : MaintenanceError → Work → Response host.Error
  refusal error (commit request_id command at) = committed (err (maintenance error))
  refusal error (checkpoint at) = checkpointed (err (maintenance error))
  refusal error _ = done (err (maintenance error))

  abbrev failing : MaintenanceError → Running im host → Running im host
  failing error running = record running {
    state = record running.state { maintenance_failure = some error };
  }

  request-failing :
      (work : Work) (error : MaintenanceError) (running : Running im host)
      → IsBlocked work
      → request host im sha work (open_store (failing error running))
        ≡ (open_store (failing error running), refusal error work)
  unfolding request handle commit_work unless_failed note_failure
  request-failing (commit request_id command at) error running h = refl
  request-failing (receipt request_id) error running h = cc h
  request-failing (snapshot at) error running h = refl
  request-failing (checkpoint at) error running h = refl
  request-failing (compact_store at) error running h = refl
  request-failing (archive destination at) error running h = refl
  request-failing shutdown error running h = cc h

  serve-failing :
      (works : List Work) (error : MaintenanceError) (running : Running im host)
      → AllBlocked works
      → serve host im sha works (open_store (failing error running))
        ≡ (open_store (failing error running), map (refusal error) works)
  unfolding serve
  serve-failing [] error running h = refl
  serve-failing (work ∷ rest) error running h =
      rw (request-failing work error running h.0, serve-failing rest error running h.1) refl

  -- The snapshot that this work makes fails, where none has failed before: one that is asked for,
  -- or one that is due after a commit.
  pub data SnapshotFails (running : Running im host) (error : MaintenanceError)
      : Work → Type 0 where
    asked_for :
        (at : Option FaultPoint)
        → running.state.maintenance_failure ≡ none
        → (persist_snapshot host im sha running.state at running.world).1 ≡ err (maintenance error)
        → SnapshotFails running error (snapshot at)
    due :
        (request_id : RequestId) (command : Command) (at : Option FaultPoint)
        (left : Running im host) (stored : CommitReceipt)
        → running.state.maintenance_failure ≡ none
        → Commit.commit host im sha request_id command at running ≡ (left, ok stored)
        → (left.state.sequence % snapshot_interval == 0) ≡ true
        → (persist_snapshot host im sha left.state none left.world).1 ≡ err (maintenance error)
        → SnapshotFails running error (commit request_id command at)

  note_failure-failing :
      {A : Type 0} (result : Result (StoreError host.Error) A) (error : MaintenanceError)
      (running : Running im host)
      → result ≡ err (maintenance error)
      → note_failure host im sha result running ≡ failing error running
  unfolding note_failure
  note_failure-failing result error running h = rw h refl

  unless_failed-none :
      {A : Type 0} (failure : Option MaintenanceError) (call : Db host A)
      → failure ≡ none
      → unless_failed host im sha failure call ≡ call
  unfolding unless_failed
  unless_failed-none none call fine = refl
  unless_failed-none (some error) call fine = cc fine

  commit_work-none :
      (failure : Option MaintenanceError) (request_id : RequestId) (command : Command)
      (at : Option FaultPoint) (running : Running im host)
      → failure ≡ none
      → commit_work host im sha failure request_id command at running
        ≡ after_commit host im sha (Commit.commit host im sha request_id command at running)
  unfolding commit_work
  commit_work-none none request_id command at running fine = refl
  commit_work-none (some error) request_id command at running fine = cc fine

  -- The worker notes the failure.
  request-SnapshotFails :
      (running : Running im host) (error : MaintenanceError) (work : Work)
      → SnapshotFails running error work
      → (left : Running im host) × ((request host im sha work (open_store running)).0
          ≡ open_store (failing error left))
  unfolding request handle after_commit
  request-SnapshotFails running error work (asked_for at fine fails) =
      let call = persist_snapshot host im sha running.state at in
      (
        record running { world = (call running.world).0 },
        rw (unless_failed-none running.state.maintenance_failure call fine)
            (ap open_store (note_failure-failing (call running.world).1 error _ fails)),
      )
  request-SnapshotFails running error work
        (due request_id command at left stored fine goes_through is_due fails) =
      let call = persist_snapshot host im sha left.state none in
      (
        record left { world = (call left.world).0 },
        rw
            (
              commit_work-none running.state.maintenance_failure request_id command at running fine,
              goes_through,
              is_due,
            )
            (ap open_store (note_failure-failing (call left.world).1 error _ fails)),
      )

  -- Where the snapshot that one piece of work asks for, or that is due after its commit, fails
  -- with an error of maintenance, and none failed before, a run of commits, snapshots,
  -- checkpoints, compactions and archives that follows is refused with that error, one response
  -- for each, and leaves the worker and its world as that piece of work left them.
  pub serve-refused :
      (running : Running im host) (error : MaintenanceError) (work : Work) (works : List Work)
      → SnapshotFails running error work
      → AllBlocked works
      → let (store, response) = request host im sha work (open_store running) in
        serve host im sha (work ∷ works) (open_store running)
        ≡ (store, response ∷ map (refusal error) works)
  unfolding serve
  serve-refused running error work works fails blocked =
      let (left, e) = request-SnapshotFails running error work fails in
      let (store, response) = request host im sha work (open_store running) in
      let same : serve host im sha works store ≡ (store, map (refusal error) works) =
        subst (λ s. serve host im sha works s ≡ (s, map (refusal error) works)) (sym e)
          (serve-failing works error left blocked) in
      ap (λ x. (x.0, response ∷ x.1)) same

-- ===== src/Store/Worker.antt =====
-- `ProjectStore` and its worker in crates/project-store/src/lib.rs. The worker takes one piece of
-- work after the other from its channel, and each caller waits for its response, so that a run of
-- the store is a list of pieces of work. After `Shutdown` the channel is closed.
pub mod Runs
pub mod Durable
pub mod Refusals
use stitch_editor.Prelude.{
  ℕ, ◌%◌, Bool, true, false, ◌&&◌, Option, none, some, List, [], ◌∷◌, ◌==◌, if◌then◌else◌,
}
use stitch_editor.Prelude.Result.{Result, ok, err}
use stitch_editor.Wire.Bytes.{Bytes}
use stitch_editor.Crates.Im.{Im, Sha256}
use stitch_editor.Model.Command.{Command}
use stitch_editor.Store.{
  RequestId, StoreError, MaintenanceError, FaultPoint, CommitReceipt, CheckpointReceipt,
  maintenance, worker_stopped, snapshot_interval,
}
use stitch_editor.Store.Host.{Host}
use stitch_editor.Store.Maintenance.{State, Db, persist_snapshot, compact}
use stitch_editor.Store.Maintenance
use stitch_editor.Store.Commit.{Running}
use stitch_editor.Store.Commit
use stitch_editor.Store.Archive

pub data Work : Type 0 where
  commit : RequestId → Command → Option FaultPoint → Work
  receipt : RequestId → Work
  snapshot : Option FaultPoint → Work
  checkpoint : Option FaultPoint → Work
  compact_store : Option FaultPoint → Work
  archive : Bytes → Option FaultPoint → Work
  shutdown : Work

-- What is sent to the caller.
pub data Response (Error : Type 0) : Type 0 where
  committed : Result (StoreError Error) CommitReceipt → Response Error
  found : Result (StoreError Error) (Option CommitReceipt) → Response Error
  checkpointed : Result (StoreError Error) CheckpointReceipt → Response Error
  done : Result (StoreError Error) (Unit {0}) → Response Error

module _ (host : Host) (im : Im) (sha : Sha256) where
  open host use {World, Error}

  abbrev pub fails_with : MaintenanceError → Running im host → Running im host
  fails_with error running = record running {
    state = record running.state { maintenance_failure = some error };
  }

  -- `if let Err(StoreError::Maintenance(error)) = … { state.maintenance_failure = Some(error); }`
  unfoldable pub note_failure :
      {A : Type 0} → Result (StoreError Error) A → Running im host → Running im host
  note_failure (err (maintenance error)) running = fails_with error running
  note_failure _ running = running

  abbrev pub in_world : Running im host → World → Running im host
  in_world running world = record running { world = world }

  -- A call on the world, and what it says.
  abbrev pub answered :
      {A : Type 0}
      → (Result (StoreError Error) A → Response Error)
      → Running im host
      → World × Result (StoreError Error) A
      → Running im host × Response Error
  answered response running (world, result) = (in_world running world, response result)

  -- `match state.maintenance_failure { Some(error) => Err(Maintenance(error)), None => … }`
  unfoldable pub unless_failed : {A : Type 0} → Option MaintenanceError → Db host A → Db host A
  unless_failed (some error) call world = (world, err (maintenance error))
  unless_failed none call world = call world

  -- What follows the response to a commit where a snapshot is due.
  abbrev pub snapshot_noted :
      Running im host → World × Result (StoreError Error) (Unit {0}) → Running im host
  snapshot_noted running (world, result) = note_failure result (in_world running world)

  abbrev pub is_ok : {A : Type 0} → Result (StoreError Error) A → Bool
  is_ok (ok a) = true
  is_ok (err e) = false

  unfoldable pub after_commit :
      Running im host × Result (StoreError Error) CommitReceipt → Running im host × Response Error
  after_commit (running, result) = (
    if is_ok result && (running.state.sequence % snapshot_interval == 0)
        then snapshot_noted running (persist_snapshot host im sha running.state none running.world)
        else running,
    committed result,
  )

  unfoldable pub commit_work :
      Option MaintenanceError
      → RequestId
      → Command
      → Option FaultPoint
      → Running im host
      → Running im host × Response Error
  commit_work (some error) request_id command at running =
      (running, committed (err (maintenance error)))
  commit_work none request_id command at running =
      after_commit (Commit.commit host im sha request_id command at running)

  abbrev pub snapshot_answered :
      Running im host
      → World × Result (StoreError Error) (Unit {0})
      → Running im host × Response Error
  snapshot_answered running (world, result) =
      (note_failure result (in_world running world), done result)

  -- One turn of the loop of `worker_main`.
  unfoldable pub handle : Work → Running im host → Running im host × Response Error
  handle (commit request_id command at) running =
      commit_work running.state.maintenance_failure request_id command at running
  handle (receipt request_id) running =
      answered found running (Commit.receipt host running.state.connection request_id running.world)
  handle (snapshot at) running = snapshot_answered running (
      unless_failed running.state.maintenance_failure
        (persist_snapshot host im sha running.state at) running.world)
  handle (checkpoint at) running = answered checkpointed running (
      unless_failed running.state.maintenance_failure
        (Maintenance.checkpoint host running.state.connection at) running.world)
  handle (compact_store at) running = answered done running (
      unless_failed running.state.maintenance_failure (compact host im sha running.state at)
        running.world)
  handle (archive destination at) running = answered done running (
      unless_failed running.state.maintenance_failure
        (Archive.archive host im sha running.state destination at) running.world)
  handle shutdown running = (running, done (ok tt))

  -- The response that a caller makes up where the channel is closed.
  abbrev pub stopped : Work → Response Error
  stopped (commit request_id command at) = committed (err worker_stopped)
  stopped (receipt request_id) = found (err worker_stopped)
  stopped (checkpoint at) = checkpointed (err worker_stopped)
  stopped _ = done (err worker_stopped)

  -- The worker, while it runs, and after it has stopped with the world that it left.
  pub data ProjectStore : Type 0 where
    open_store : Running im host → ProjectStore
    closed_store : World → ProjectStore

  abbrev pub still_open : Running im host × Response Error → ProjectStore × Response Error
  still_open (running, response) = (open_store running, response)

  -- `request_commit`, `receipt`, `request_snapshot`, `request_checkpoint`, `request_compact`,
  -- `request_archive` and `shutdown`: the work is sent, and the response is waited for.
  unfoldable pub request : Work → ProjectStore → ProjectStore × Response Error
  request work (closed_store world) = (closed_store world, stopped work)
  request shutdown (open_store running) = (closed_store running.world, done (ok tt))
  request work (open_store running) = still_open (handle work running)

  -- A run of the store, with its responses in order.
  unfoldable pub serve : List Work → ProjectStore → ProjectStore × List (Response Error)
  serve [] store = (store, [])
  serve (work ∷ rest) store =
      let (next, response) = request work store in
      let (last, responses) = serve rest next in (last, response ∷ responses)

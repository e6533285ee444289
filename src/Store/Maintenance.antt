-- ===== src/Store/Maintenance.antt =====
-- `State`, `persist_snapshot`, `checkpoint` and `compact` of crates/project-store/src/lib.rs.
pub mod Keeps
use stitch_editor.Prelude.{ℕ, Bool, true, false, not, ◌||◌, Option, none, some, ◌==◌, if◌then◌else◌}
use stitch_editor.Prelude.Int.{ℤ, pos, ◌==ℤ◌}
use stitch_editor.Prelude.Result.{Result, ok, err, ok_or}
use stitch_editor.Ids.{RevisionHash}
use stitch_editor.Wire.Bytes.{Bytes}
use stitch_editor.Crates.Im.{Im, Sha256}
use stitch_editor.Model.Project.{Project}
use stitch_editor.Model.Project.Encode.{project_bytes, semantic_digest}
use stitch_editor.Store.{
  StoreError, MaintenanceError, CheckpointReceipt, FaultPoint, maintenance, sql, corrupt_store,
  before_snapshot, during_snapshot, after_snapshot, before_checkpoint, during_checkpoint,
  after_checkpoint, before_compaction, during_compaction, after_compaction,
}
use stitch_editor.Store.Database.{
  Database, SnapshotRow, has_snapshot, insert_snapshot, delete_snapshots,
}
use stitch_editor.Store.Host.{Host, vacuum, wal_checkpoint}
use stitch_editor.Store.Monad.{
  M, return, lift, ◌>>=◌, ◌>>◌, fail_if, converting, transaction, maintenance_fault,
}

pub record State (im : Im) (host : Host) : Type 0 where
  pub connection : host.Connection
  pub project : Project im
  pub head : Option RevisionHash
  pub sequence : ℕ
  pub database_path : Bytes
  pub maintenance_failure : Option MaintenanceError

module _ (host : Host) where
  open host use {
    World, Connection, Error, query, execute, begin_immediate, commit_transaction, rollback,
    execute_batch, query_triple,
  }

  -- A call on the world that may fail.
  abbrev pub Db : Type 0 → Type 0
  Db A = M World (StoreError Error) A

  -- `?` on an error of `rusqlite`, and `map_err(|_| StoreError::Maintenance(error))`.
  abbrev pub sql_call : {A : Type 0} → M World Error A → Db A
  sql_call = converting sql

  abbrev pub maintenance_call : {A : Type 0} → MaintenanceError → M World Error A → Db A
  maintenance_call error = converting (λ _. maintenance error)

  -- `busy != 0 || log_frames != checkpointed_frames`
  abbrev pub is_incomplete : ℤ → ℤ → ℤ → Bool
  is_incomplete busy log_frames checkpointed_frames =
      not (busy ==ℤ pos 0) || not (log_frames ==ℤ checkpointed_frames)

  unfoldable pub checkpoint : Connection → Option FaultPoint → Db CheckpointReceipt
  checkpoint connection at = do
    maintenance_fault at before_checkpoint
    maintenance_fault at during_checkpoint
    (busy, log_frames, checkpointed_frames) ←
        maintenance_call MaintenanceError.checkpoint (query_triple wal_checkpoint connection)
    fail_if (is_incomplete busy log_frames checkpointed_frames)
        (maintenance MaintenanceError.checkpoint)
    maintenance_fault at after_checkpoint
    return (record { log_frames = log_frames; checkpointed_frames = checkpointed_frames })

  module _ (im : Im) (sha : Sha256) where
    abbrev pub snapshot_row : State im host → RevisionHash → SnapshotRow
    snapshot_row state head = record {
      sequence = state.sequence;
      revision_hash = head;
      project = project_bytes im state.project;
      project_digest = semantic_digest im sha state.project;
    }

    -- The transaction of `persist_snapshot`.
    unfoldable pub write_snapshot : State im host → RevisionHash → Db (Unit {0})
    write_snapshot state head =
        transaction (maintenance_call MaintenanceError.snapshot (begin_immediate state.connection))
          (rollback state.connection)
          (do
            maintenance_call MaintenanceError.snapshot
                (execute (insert_snapshot (snapshot_row state head)) state.connection)
            maintenance_call MaintenanceError.snapshot (commit_transaction state.connection))

    unfoldable pub persist_missing :
        State im host → RevisionHash → Option FaultPoint → Bool → Db (Unit {0})
    persist_missing state head at true = return tt
    persist_missing state head at false = do
      maintenance_fault at during_snapshot
      write_snapshot state head
      maintenance_fault at after_snapshot

    unfoldable pub persist_snapshot : State im host → Option FaultPoint → Db (Unit {0})
    persist_snapshot state at = if state.sequence == 0 then return tt else do
      maintenance_fault at before_snapshot
      head ← lift (ok_or state.head corrupt_store)
      exists ←
          maintenance_call MaintenanceError.snapshot
            (query (λ db. has_snapshot state.sequence head db.snapshots) state.connection)
      persist_missing state head at exists

    -- The transaction of `compact`.
    unfoldable pub delete_old : State im host → Db (Unit {0})
    delete_old state =
        transaction
          (maintenance_call MaintenanceError.compaction (begin_immediate state.connection))
          (rollback state.connection)
          (do
            maintenance_call MaintenanceError.compaction (execute delete_snapshots state.connection)
            maintenance_call MaintenanceError.compaction (commit_transaction state.connection))

    unfoldable pub compact : State im host → Option FaultPoint → Db (Unit {0})
    compact state at = do
      maintenance_fault at before_compaction
      persist_snapshot state none
      delete_old state
      maintenance_fault at during_compaction
      _ ← checkpoint state.connection none
      maintenance_call MaintenanceError.compaction (execute_batch vacuum state.connection)
      maintenance_fault at after_compaction

-- ===== src/Store/Archive.antt =====
-- `archive` and its helpers of crates/project-store/src/lib.rs, on a unix system.
use stitch_editor.Prelude.{ℕ, Bool, true, not, ◌||◌, Option, ◌++◌, ◌==◌, if◌then◌else◌}
use stitch_editor.Prelude.Result.{Result, ok, err, ok_or}
use stitch_editor.Prelude.Text.{codes}
use stitch_editor.Wire.Bytes.{Bytes, beq}
use stitch_editor.Crates.Im.{Im, Sha256}
use stitch_editor.Model.Project.Encode.{semantic_digest}
use stitch_editor.Store.{
  StoreError, MaintenanceError, FaultPoint, maintenance, corrupt_store, before_archive,
  during_archive, after_archive,
}
use stitch_editor.Store.Host.{Host}
use stitch_editor.Store.Monad.{return, lift, fail_if, ◌>>=◌, ◌>>◌, maintenance_fault}
use stitch_editor.Store.Maintenance.{State, Db, sql_call, maintenance_call}
use stitch_editor.Store.Replay.{same_hash}
use stitch_editor.Store.Restore.{restore}
use stitch_editor.Store.Open.{verify_runtime, validate_schema}

unfoldable pub with_suffix : Bytes → Bytes → Bytes
with_suffix path suffix = path ++ suffix

-- `database_path == destination`, or its WAL, or its shared memory.
unfoldable pub is_live : Bytes → Bytes → Bool
is_live database_path destination =
    beq destination database_path
    || beq destination (with_suffix database_path (codes "-wal"))
    || beq destination (with_suffix database_path (codes "-shm"))

module _ (host : Host) where
  open host use {
    World, Connection, Error, query_text, open_connection, backup, parent, file_name, join, exists,
    sync_file, sync_directory, rename, process_id, fetch_add, decimal,
  }

  abbrev pub archive_failed : StoreError Error
  archive_failed = maintenance MaintenanceError.archive

  -- A call of `std::fs` with its error mapped.
  abbrev pub file_result : World × Bool → World × Result (StoreError Error) (Unit {0})
  file_result (world, done) = (world, if done then ok tt else err archive_failed)

  unfoldable pub file_call : (World → World × Bool) → Db host (Unit {0})
  file_call call world = file_result (call world)

  abbrev pub answer : {A : Type 0} → World × A → World × Result (StoreError Error) A
  answer (world, a) = (world, ok a)

  -- A call that does not fail.
  unfoldable pub asking : {A : Type 0} → (World → World × A) → Db host A
  asking call world = answer (call world)

  unfoldable pub sync_archive_parent : Bytes → Db host (Unit {0})
  sync_archive_parent destination = do
    directory ← lift (ok_or (parent destination) archive_failed)
    file_call (sync_directory directory)

  -- `.tmp-{}-{}`
  abbrev pub temporary_suffix : ℕ → Bytes
  temporary_suffix counter = codes ".tmp-" ++ (decimal process_id ++ (codes "-" ++ decimal counter))

  unfoldable pub archive_temporary_path : Bytes → Db host Bytes
  archive_temporary_path destination = do
    directory ← lift (ok_or (parent destination) archive_failed)
    name ← lift (ok_or (file_name destination) archive_failed)
    counter ← asking fetch_add
    there ← asking (exists (join directory (name ++ temporary_suffix counter)))
    fail_if there archive_failed
    return (join directory (name ++ temporary_suffix counter))

  module _ (im : Im) (sha : Sha256) where
    unfoldable pub validate_archive : Bytes → State im host → Db host (Unit {0})
    validate_archive path state = do
      connection ← sql_call host (open_connection path)
      verify_runtime host connection
      validate_schema host connection
      quick_check ← sql_call host (query_text (codes "PRAGMA quick_check") connection)
      fail_if (not (beq quick_check (codes "ok"))) corrupt_store
      (project, head, sequence) ← restore host im sha connection
      fail_if
          (not (sequence == state.sequence)
            || not (same_hash head state.head)
            || not (beq (semantic_digest im sha project) (semantic_digest im sha state.project)))
          corrupt_store

    -- `if validation.is_err() { return Err(…) }`
    abbrev pub validated :
        World × Result (StoreError Error) (Unit {0}) → World × Result (StoreError Error) (Unit {0})
    validated (world, ok done) = (world, ok tt)
    validated (world, err error) = (world, err archive_failed)

    unfoldable pub validation : Bytes → State im host → Db host (Unit {0})
    validation path state world = validated (validate_archive path state world)

    -- From the backup on.
    unfoldable pub archive_to :
        State im host → Bytes → Bytes → Option FaultPoint → Db host (Unit {0})
    archive_to state destination temporary at = do
      maintenance_call host MaintenanceError.archive (backup temporary state.connection)
      maintenance_fault at during_archive
      validation temporary state
      file_call (sync_file temporary)
      maintenance_fault at after_archive
      file_call (rename temporary destination)
      sync_archive_parent destination

    unfoldable pub archive_unless :
        Bool → State im host → Bytes → Option FaultPoint → Db host (Unit {0})
    archive_unless refused state destination at = do
      fail_if refused archive_failed
      maintenance_fault at before_archive
      temporary ← archive_temporary_path destination
      archive_to state destination temporary at

    -- `destination.exists()` is asked only where the destination is not a live path.
    unfoldable pub archive : State im host → Bytes → Option FaultPoint → Db host (Unit {0})
    archive state destination at =
        if is_live state.database_path destination
        then archive_unless true state destination at
        else (do there ← asking (exists destination); archive_unless there state destination at)

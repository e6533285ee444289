-- ===== src/Store/Restore.antt =====
-- `restore` and `validate_receipts` of crates/project-store/src/lib.rs.
pub mod Accepts
pub mod Sound
use stitch_editor.Prelude.{
  ℕ, Bool, true, false, not, ◌||◌, Option, none, some, List, ◌==◌, if◌then◌else◌, length,
}
use stitch_editor.Prelude.Result.{Result, ok, err, map_err}
use stitch_editor.Ids.{RevisionHash}
use stitch_editor.Wire.Bytes.{Bytes, beq}
use stitch_editor.Crates.Im.{Im, Sha256}
use stitch_editor.Model.Project.{Project}
use stitch_editor.Model.Project.Encode.{semantic_digest}
use stitch_editor.Model.Project.Validate.{project_from_canonical_bytes}
use stitch_editor.Store.{StoreError, corrupt_store}
use stitch_editor.Store.Database.{
  Database, SnapshotRow, has_revision, last_snapshot, is_mismatch, any,
}
use stitch_editor.Store.Host.{Host}
use stitch_editor.Store.Monad.{lift, return, throw, fail_if, ◌>>=◌, ◌>>◌}
use stitch_editor.Store.Maintenance.{Db, sql_call}
use stitch_editor.Store.Replay.{Progress, started, restore_rows, check_head}

-- `hash_from_bytes(hash).is_err()`
abbrev pub is_no_hash : Bytes → Bool
is_no_hash bytes = not (length bytes == 32)

module _ (host : Host) where
  open host use {Connection, query}

  unfoldable pub validate_receipts : Connection → Db host (Unit {0})
  validate_receipts connection = do
    receipt_count ← sql_call host (query (λ db. length db.receipts) connection)
    revision_count ← sql_call host (query (λ db. length db.revisions) connection)
    mismatch ← sql_call host (query (λ db. any (is_mismatch db.revisions) db.receipts) connection)
    fail_if (not (receipt_count == revision_count) || mismatch) corrupt_store

  module _ (im : Im) (sha : Sha256) where
    -- The test of the newest snapshot before the loop; the last query is made only where the two
    -- tests before it pass.
    unfoldable pub check_revision : Connection → SnapshotRow → Bool → Db host (Unit {0})
    check_revision connection snapshot true = throw corrupt_store
    check_revision connection snapshot false = do
      found ← sql_call host (
          query (λ db. has_revision snapshot.sequence snapshot.revision_hash db.revisions)
            connection)
      fail_if (not found) corrupt_store

    unfoldable pub check_snapshot : Connection → Option SnapshotRow → Db host (Unit {0})
    check_snapshot connection none = return tt
    check_snapshot connection (some snapshot) = do
      project ← lift (map_err (project_from_canonical_bytes im snapshot.project) corrupt_store)
      check_revision connection snapshot (
          not (beq (semantic_digest im sha project) snapshot.project_digest)
          || is_no_hash snapshot.revision_hash)

    unfoldable pub restore : Connection → Db host (Project im × Option RevisionHash × ℕ)
    restore connection = do
      expected_head ← sql_call host (query (λ db. db.heads) connection)
      snapshot ← sql_call host (query (λ db. last_snapshot db.snapshots) connection)
      check_snapshot connection snapshot
      rows ← sql_call host (query (λ db. db.revisions) connection)
      progress ← lift (restore_rows im sha snapshot (started im snapshot) rows)
      fail_if (not progress.matched_snapshot) corrupt_store
      validate_receipts connection
      lift (check_head im sha expected_head progress)

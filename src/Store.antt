-- ===== src/Store.antt =====
-- crates/project-store/src/lib.rs: constants, faults, errors and receipts.
pub mod Database
pub mod Host
pub mod Monad
pub mod Maintenance
pub mod Commit
pub mod Log
pub mod Replay
pub mod Restore
pub mod Open
pub mod Archive
pub mod Worker
pub mod InMemory
mod Tests
use stitch_editor.Prelude.{ℕ, ◌^◌, Option, none, some, ◌==◌, Bool, false}
use stitch_editor.Prelude.Int.{ℤ}
use stitch_editor.Ids.{RevisionHash, ModelError}
use stitch_editor.Wire.Bytes.{Bytes}

abbrev pub RequestId : Type 0
RequestId = Bytes

-- One more than the largest i64.
abbrev pub i64_limit : ℕ
i64_limit = 2 ^ 63

abbrev pub snapshot_interval : ℕ
snapshot_interval = 128

pub data FaultPoint : Type 0 where
  before_commit after_commit_before_response : FaultPoint
  before_snapshot during_snapshot after_snapshot : FaultPoint
  before_checkpoint during_checkpoint after_checkpoint : FaultPoint
  before_compaction during_compaction after_compaction : FaultPoint
  before_archive during_archive after_archive : FaultPoint

pub data MaintenanceError : Type 0 where
  snapshot checkpoint compaction archive : MaintenanceError
  fault : FaultPoint → MaintenanceError

pub record CheckpointReceipt : Type 0 where
  pub log_frames : ℤ
  pub checkpointed_frames : ℤ

pub record CommitReceipt : Type 0 where
  pub request_id : RequestId
  pub revision_hash : RevisionHash
  pub sequence : ℕ

-- `Error` is the type of the errors of `rusqlite`.
pub data StoreError (Error : Type 0) : Type 0 where
  sql : Error → StoreError Error
  model : ModelError → StoreError Error
  ambiguous : RequestId → StoreError Error
  request_conflict : RequestId → StoreError Error
  injected : FaultPoint → StoreError Error
  maintenance : MaintenanceError → StoreError Error
  unsupported_sqlite : Bytes → StoreError Error
  runtime_mismatch corrupt_store worker_stopped : StoreError Error

-- The derived order of the variants, for the derived `==`.
abbrev pub variant : FaultPoint → ℕ
variant before_commit = 0
variant after_commit_before_response = 1
variant before_snapshot = 2
variant during_snapshot = 3
variant after_snapshot = 4
variant before_checkpoint = 5
variant during_checkpoint = 6
variant after_checkpoint = 7
variant before_compaction = 8
variant during_compaction = 9
variant after_compaction = 10
variant before_archive = 11
variant during_archive = 12
variant after_archive = 13

-- `fault == Some(point)`
abbrev pub is_at : Option FaultPoint → FaultPoint → Bool
is_at none point = false
is_at (some at) point = variant at == variant point

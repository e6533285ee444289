-- ===== src/Store/Replay.antt =====
-- The loop over the revisions in `restore` of crates/project-store/src/lib.rs, and its checks of
-- the snapshot and of the head.
pub mod Accepts
pub mod Sound
use stitch_editor.Prelude.{
  ℕ, ◌+◌, Bool, true, false, not, ◌||◌, ◌&&◌, Option, none, some, List, [], ◌∷◌, ◌==◌,
  if◌then◌else◌, length,
}
use stitch_editor.Prelude.Result.{Result, ok, err, map_err, ◌>>=◌, ◌>>◌, fail_if}
use stitch_editor.Ids.{RevisionHash}
use stitch_editor.Wire.Bytes.{Bytes, beq}
use stitch_editor.Crates.Im.{Im, Sha256}
use stitch_editor.Model.Command.{Command, from_canonical_bytes}
use stitch_editor.Model.Project.{Project, default, reduce}
use stitch_editor.Model.Project.Encode.{project_bytes, semantic_digest}
use stitch_editor.Model.Project.Validate.{project_from_canonical_bytes}
use stitch_editor.History.{revision_hash}
use stitch_editor.Store.{StoreError, corrupt_store}
use stitch_editor.Store.Database.{
  Database, RevisionRow, SnapshotRow, HeadRow, has_revision, last_snapshot, is_mismatch, any,
}
use stitch_editor.Store.Commit.{hash_from_bytes}

-- `==` on optional hashes.
unfoldable pub same_hash : Option RevisionHash → Option RevisionHash → Bool
same_hash none none = true
same_hash (some a) (some b) = beq a b
same_hash _ _ = false

-- The variables of the loop.
pub record Progress (im : Im) : Type 0 where
  pub project : Project im
  pub head : Option RevisionHash
  pub sequence : ℕ
  pub matched_snapshot : Bool

abbrev pub started : (im : Im) → Option SnapshotRow → Progress im
started im snapshot = record {
  project = default im;
  head = none;
  sequence = 0;
  matched_snapshot = elim snapshot [ none ↦ true | some row ↦ false ];
}

-- `map(|bytes| hash_from_bytes(&bytes)).transpose()`
abbrev pub optional_hash : {E : Type 0} → Option Bytes → Result (StoreError E) (Option RevisionHash)
optional_hash none = ok none
optional_hash (some bytes) = do hash ← hash_from_bytes bytes; ok (some hash)

module _ (im : Im) (sha : Sha256) {E : Type 0} where
  -- What the loop does at the revision of the snapshot.
  unfoldable pub compare_snapshot : SnapshotRow → Progress im → Result (StoreError E) (Progress im)
  compare_snapshot snapshot progress = do
    hash ← hash_from_bytes snapshot.revision_hash
    fail_if
        (not (same_hash progress.head (some hash))
          || not (beq (project_bytes im progress.project) snapshot.project)
          || not (beq (semantic_digest im sha progress.project) snapshot.project_digest))
        corrupt_store
    ok (record progress { matched_snapshot = true })

  unfoldable pub match_snapshot :
      Option SnapshotRow → Progress im → Result (StoreError E) (Progress im)
  match_snapshot none progress = ok progress
  match_snapshot (some snapshot) progress =
      if progress.sequence == snapshot.sequence
      then compare_snapshot snapshot progress
      else ok progress

  -- The body of the loop. Where `sequence + 1` does not fit an i64 no sequence is equal to it.
  unfoldable pub restore_row :
      Option SnapshotRow → Progress im → RevisionRow → Result (StoreError E) (Progress im)
  restore_row snapshot progress row = do
    fail_if (not (row.sequence == progress.sequence + 1)) corrupt_store
    command ← map_err (from_canonical_bytes row.command) corrupt_store
    parent ← optional_hash row.parent_hash
    fail_if (not (same_hash parent progress.head)) corrupt_store
    hash ← hash_from_bytes row.revision_hash
    fail_if (not (beq (revision_hash sha progress.head command) hash)) corrupt_store
    project ← map_err (reduce im progress.project command) corrupt_store
    match_snapshot snapshot (record {
      project = project;
      head = some (revision_hash sha progress.head command);
      sequence = row.sequence;
      matched_snapshot = progress.matched_snapshot;
    })

  unfoldable pub restore_rows :
      Option SnapshotRow → Progress im → List RevisionRow → Result (StoreError E) (Progress im)
  restore_rows snapshot progress [] = ok progress
  restore_rows snapshot progress (row ∷ rest) = do
    next ← restore_row snapshot progress row
    restore_rows snapshot next rest

  unfoldable pub compare_head :
      HeadRow → Progress im → Result (StoreError E) (Project im × Option RevisionHash × ℕ)
  compare_head head progress = do
    hash ← hash_from_bytes head.revision_hash
    fail_if (not (same_hash (some hash) progress.head)) corrupt_store
    ok (progress.project, progress.head, progress.sequence)

  -- The last match.
  unfoldable pub check_head :
      Option HeadRow → Progress im → Result (StoreError E) (Project im × Option RevisionHash × ℕ)
  check_head none progress =
      if progress.sequence == 0
      then ok (progress.project, progress.head, progress.sequence)
      else err corrupt_store
  check_head (some head) progress =
      if head.sequence == progress.sequence then compare_head head progress else err corrupt_store

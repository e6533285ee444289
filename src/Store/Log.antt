-- ===== src/Store/Log.antt =====
-- The tables of crates/project-store/src/lib.rs as the log of the commits that made them.
pub mod Rows
pub mod Stored
pub mod Snapshots
pub mod Receipts
use stitch_editor.Prelude.{
  ℕ, zero, suc, ◌+◌, ◌≤◌, ◌<◌, ◌≡◌, refl, subst, ap, ◌∙◌, sym, Bool, true, false, Option, none,
  some, List, [], ◌∷◌, ◌++◌, arith, length, ◌&&◌, ◌||◌, ltb, ◌==◌,
}
use stitch_editor.Prelude.Result.{ok}
use stitch_editor.Ids.{RevisionHash}
use stitch_editor.Wire.Bytes.{Bytes, IsArray, beq, beq_refl}
use stitch_editor.Crates.Im.{Im, Sha256}
use stitch_editor.Model.Command.{Command, IsCommand, canonical_bytes}
use stitch_editor.Model.Project.{Project, default, reduce}
use stitch_editor.Model.Project.Encode.{project_bytes, semantic_digest}
use stitch_editor.History.{revision_hash}
use stitch_editor.Store.{RequestId, i64_limit}
use stitch_editor.Store.Database.{
  Database, RevisionRow, ReceiptRow, HeadRow, SnapshotRow, find_receipt, insert_row, has_revision,
  any,
}
use stitch_editor.Store.Commit.{revision_row, receipt_row}

module _ (im : Im) (sha : Sha256) where
  -- The revisions, oldest first, with the receipts, newest first, that committing commands one
  -- after the other to the default project gives, and the project, hash and number that they end
  -- with.
  pub data Log
      : List RevisionRow → List ReceiptRow → Project im → Option RevisionHash → ℕ → Type 0 where
    log_empty : Log [] [] (default im) none 0
    log_next :
        {rows : List RevisionRow} {receipts : List ReceiptRow} {project : Project im}
        {head : Option RevisionHash} {sequence : ℕ} (request_id : RequestId) (command : Command)
        (next : Project im)
        → Log rows receipts project head sequence
        → IsCommand command
        → length request_id ≡ 16
        → find_receipt request_id receipts ≡ none
        → sequence + 1 < i64_limit
        → reduce im project command ≡ ok next
        → Log
            (rows ++ revision_row (sequence + 1) (revision_hash sha head command) head command ∷ [])
            (receipt_row request_id (revision_hash sha head command) (sequence + 1) command
              ∷ receipts)
            next
            (some (revision_hash sha head command))
            (sequence + 1)

  -- The snapshot is one of this project and hash.
  pub record Matches (snapshot : SnapshotRow) (project : Project im) (hash : RevisionHash)
      : Type 0 where
    pub same_hash : snapshot.revision_hash ≡ hash
    pub same_project : snapshot.project ≡ project_bytes im project
    pub same_digest : snapshot.project_digest ≡ semantic_digest im sha project

  -- It is one of what the log held at its sequence, wherever the log has that.
  unfoldable pub Agrees :
      {rows : List RevisionRow} {receipts : List ReceiptRow} {project : Project im}
      {head : Option RevisionHash} {sequence : ℕ}
      → SnapshotRow
      → Log rows receipts project head sequence
      → Type 0
  Agrees snapshot log_empty = Unit
  Agrees snapshot
        (log_next {head = head} {sequence = sequence} request_id command next log _ _ _ _ _) =
      Agrees snapshot log
      × (snapshot.sequence ≡ sequence + 1 → Matches snapshot next (revision_hash sha head command))

-- ===== src/Store/Log/Stored.antt =====
-- A database of crates/project-store/src/lib.rs that holds a log, and one more commit in it.
use stitch_editor.Prelude.{
  ℕ, ◌+◌, ◌≤◌, ◌<◌, ◌≡◌, refl, Option, none, some, List, [], ◌∷◌, ◌++◌, true, arith, length,
}
use stitch_editor.Prelude.Result.{ok}
use stitch_editor.Ids.{RevisionHash}
use stitch_editor.Crates.Im.{Im, Sha256}
use stitch_editor.Model.Command.{Command, IsCommand}
use stitch_editor.Model.Project.{Project, reduce}
use stitch_editor.History.{revision_hash}
use stitch_editor.Store.{RequestId, i64_limit}
use stitch_editor.Store.Database.{
  Database, RevisionRow, ReceiptRow, HeadRow, SnapshotRow, find_receipt, insert_revision,
  receipt_checks,
}
use stitch_editor.Store.Commit.{revision_row, receipt_row}
use stitch_editor.Store.Commit.Writes.{
  head_row, with_commit, insert_revision-fits, receipt_checks-fits,
}
use stitch_editor.Store.Log.{Log, log_empty, log_next, Agrees}
use stitch_editor.Store.Log.Rows.{
  Log-HeadFits, Log-AllBelow, length-revision_hash, revision_row-checks, insert_row-last,
  has_revision-last, canonical_bytes_nonempty,
}

-- The row of `heads`.
abbrev pub head_of : Option RevisionHash → ℕ → Option HeadRow
head_of none sequence = none
head_of (some hash) sequence = some (head_row sequence hash)

module _ (im : Im) (sha : Sha256) where
  module _ {rows : List RevisionRow} {receipts : List ReceiptRow} {project : Project im}
      {head : Option RevisionHash} {sequence : ℕ} where
    -- Every snapshot is of a revision of the log, and agrees with it.
    abbrev pub AllAgree : List SnapshotRow → Log im sha rows receipts project head sequence → Type 0
    AllAgree [] log = Unit
    AllAgree (snapshot ∷ rest) log =
        ((0 < snapshot.sequence) × (snapshot.sequence ≤ sequence) × Agrees im sha snapshot log)
        × AllAgree rest log

  pub record Stored (db : Database) (project : Project im) (head : Option RevisionHash)
      (sequence : ℕ) : Type 0 where
    pub log : Log im sha db.revisions db.receipts project head sequence
    pub is_head : db.heads ≡ head_of head sequence
    pub all_agree : AllAgree db.snapshots log

  AllAgree-next :
      {rows : List RevisionRow} {receipts : List ReceiptRow} {project : Project im}
      {head : Option RevisionHash} {sequence : ℕ} (snapshots : List SnapshotRow)
      (request_id : RequestId) (command : Command) (next : Project im)
      (log : Log im sha rows receipts project head sequence) (a : IsCommand command)
      (b : length request_id ≡ 16) (c : find_receipt request_id receipts ≡ none)
      (d : sequence + 1 < i64_limit) (e : reduce im project command ≡ ok next)
      → AllAgree snapshots log
      → AllAgree snapshots (log_next request_id command next log a b c d e)
  unfolding Agrees
  AllAgree-next [] request_id command next log a b c d e h = tt
  AllAgree-next (snapshot ∷ rest) request_id command next log a b c d e h = (
    (h.0.0, omega (arith, h.0.1), (h.0.2, λ same. absurd (omega (arith, h.0.1, same)))),
    AllAgree-next rest request_id command next log a b c d e h.1,
  )

  pub Stored-next :
      (db : Database) (project : Project im) (head : Option RevisionHash) (sequence : ℕ)
      (request_id : RequestId) (command : Command) (next : Project im)
      → Stored db project head sequence
      → IsCommand command
      → length request_id ≡ 16
      → find_receipt request_id db.receipts ≡ none
      → sequence + 1 < i64_limit
      → reduce im project command ≡ ok next
      → let hash = revision_hash sha head command in
        Stored
          (with_commit db
            (revision_row (sequence + 1) hash head command)
            (receipt_row request_id hash (sequence + 1) command))
          next
          (some hash)
          (sequence + 1)
  Stored-next db project head sequence request_id command next s a b c d e = record {
    log = log_next request_id command next s.log a b c d e;
    is_head = refl;
    all_agree = AllAgree-next db.snapshots request_id command next s.log a b c d e s.all_agree;
  }

  -- The two insertions of a commit are within the constraints of the tables.
  pub revision-fits :
      (db : Database) (project : Project im) (head : Option RevisionHash) (sequence : ℕ)
      (command : Command)
      → Stored db project head sequence
      → let row = revision_row (sequence + 1) (revision_hash sha head command) head command in
        insert_revision row db ≡ some (record db { revisions = db.revisions ++ row ∷ [] })
  revision-fits db project head sequence command s =
      insert_revision-fits _ db _
        (revision_row-checks im sha head sequence command (Log-HeadFits im sha s.log))
        (insert_row-last sequence db.revisions _ (Log-AllBelow im sha s.log) (omega arith))

  pub receipt-fits :
      (db : Database) (head : Option RevisionHash) (sequence : ℕ) (request_id : RequestId)
      (command : Command)
      → length request_id ≡ 16
      → find_receipt request_id db.receipts ≡ none
      → let hash = revision_hash sha head command in
        receipt_checks (receipt_row request_id hash (sequence + 1) command) (record db {
          revisions = db.revisions ++ revision_row (sequence + 1) hash head command ∷ [];
        })
        ≡ true
  receipt-fits db head sequence request_id command b c =
      receipt_checks-fits _ _ b (length-revision_hash sha head command) (omega arith)
        (canonical_bytes_nonempty command) c
        (has_revision-last db.revisions
          (revision_row (sequence + 1) (revision_hash sha head command) head command))

  -- What a receipt of a log says.
  pub find_receipt-Log :
      {rows : List RevisionRow} {receipts : List ReceiptRow} {project : Project im}
      {head : Option RevisionHash} {sequence : ℕ} (request_id : RequestId) (row : ReceiptRow)
      → Log im sha rows receipts project head sequence
      → find_receipt request_id receipts ≡ some row
      → length row.revision_hash ≡ 32
  unfolding find_receipt
  find_receipt-Log request_id row log_empty h = cc h
  find_receipt-Log request_id row (log_next {head = head} r command next log _ _ _ _ _) h =
      ground (arith, length-revision_hash sha head command, find_receipt-Log request_id row log)

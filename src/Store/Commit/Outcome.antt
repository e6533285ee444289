-- ===== src/Store/Commit/Outcome.antt =====
-- `commit` of crates/project-store/src/lib.rs on a store that holds a log.
pub mod Lookup
pub mod Advance
pub mod Steps
use stitch_editor.Prelude.{
  ◌+◌, ◌<◌, ◌≡◌, refl, sym, ◌∙◌, ap, subst, Bool, true, false, Option, none, some, arith, length,
  inl, inr, Bool-cases, ltb,
}
use stitch_editor.Prelude.Result.{ok, err, Result-cases}
use stitch_editor.Ids.{RevisionHash, ModelError}
use stitch_editor.Wire.Bytes.{beq, beq_iff}
use stitch_editor.Crates.Im.{Im, Sha256}
use stitch_editor.Model.Command.{Command, IsCommand, canonical_bytes}
use stitch_editor.Model.Project.{Project, reduce}
use stitch_editor.History.{revision_hash}
use stitch_editor.Store.{
  RequestId, StoreError, FaultPoint, CommitReceipt, sql, model, ambiguous, request_conflict,
  injected, corrupt_store, before_commit, after_commit_before_response, i64_limit, is_at,
}
use stitch_editor.Store.Database.{Database, ReceiptRow, find_receipt}
use stitch_editor.Store.Host.{Host, Lawful}
use stitch_editor.Store.Host.Rules.{Outside}
use stitch_editor.Store.Host.Calls.{query_call}
use stitch_editor.Store.Monad.{converting, ◌>>=◌}
use stitch_editor.Store.Monad.Post.{
  Post, post_ok, post_err, Post-weaken, Post-bind, Post-on_part, Post-fail_if,
}
use stitch_editor.Store.Maintenance.{State}
use stitch_editor.Store.Commit.{
  Running, revision_row, receipt_row, receipt, receipt_of, stored_command, commit_again, commit_end,
  commit_write, commit_new, commit_found, commit, hash_from_bytes,
}
use stitch_editor.Store.Commit.Writes.{
  with_commit, write_commit-Post, Interrupted, by_engine, by_fault,
}
use stitch_editor.Store.Log.Stored.{
  Stored, Stored-next, revision-fits, receipt-fits, find_receipt-Log,
}
use stitch_editor.Store.Log.Rows.{length-revision_hash}

-- The receipt that a row stands for.
abbrev pub to_receipt : RequestId → ReceiptRow → CommitReceipt
to_receipt request_id row = record {
  request_id = request_id;
  revision_hash = row.revision_hash;
  sequence = row.sequence;
}

abbrev pub new_hash : {im : Im} {host : Host} → Sha256 → State im host → Command → RevisionHash
new_hash sha state command = revision_hash sha state.head command

abbrev pub new_row :
    {im : Im} {host : Host} → Sha256 → State im host → RequestId → Command → ReceiptRow
new_row sha state request_id command =
    receipt_row request_id (new_hash sha state command) (state.sequence + 1) command

-- The tables with the new revision, and the state that goes with them.
abbrev pub new_db :
    {im : Im} {host : Host} → Sha256 → State im host → Database → RequestId → Command → Database
new_db sha state db request_id command =
    with_commit db
      (revision_row (state.sequence + 1) (new_hash sha state command) state.head command)
      (new_row sha state request_id command)

abbrev pub new_state :
    {im : Im} {host : Host} → Sha256 → State im host → Command → Project im → State im host
new_state sha state command next = record state {
  project = next;
  head = some (new_hash sha state command);
  sequence = state.sequence + 1;
}

module _ (host : Host) (laws : Lawful host) (im : Im) (sha : Sha256) (sound : Bool) where
  open host use {World, Connection, Error}

  -- Outside of a transaction, the database holds the log that the worker's state is the end of.
  pub record Holds (db : Database) (running : Running im host) : Type 0 where
    pub outside : Outside host laws running.state.connection sound db running.world
    pub stored : Stored im sha db running.state.project running.state.head running.state.sequence

  module _ (state : State im host) (db : Database) (request_id : RequestId) (command : Command)
      (at : Option FaultPoint) where
    -- The commit was made now, or before by a request with the same bytes.
    pub data Done (after : Running im host) : CommitReceipt → Type 0 where
      now :
          (next : Project im)
          → find_receipt request_id db.receipts ≡ none
          → reduce im state.project command ≡ ok next
          → Holds (new_db sha state db request_id command) after
          → after.state ≡ (new_state sha state command next)
          → Done after (to_receipt request_id (new_row sha state request_id command))
      before :
          (row : ReceiptRow)
          → find_receipt request_id db.receipts ≡ some row
          → row.command ≡ canonical_bytes command
          → Holds db after
          → after.state ≡ state
          → Done after (to_receipt request_id row)

    -- Why nothing was committed.
    pub data Reason : StoreError Error → Type 0 where
      by_sql : (e : Error) → sound ≡ false → Reason (sql e)
      by_model :
          (e : ModelError)
          → find_receipt request_id db.receipts ≡ none
          → reduce im state.project command ≡ err e
          → Reason (model e)
      by_limit :
          find_receipt request_id db.receipts ≡ none
          → ltb (state.sequence + 1) i64_limit ≡ false
          → Reason corrupt_store
      by_conflict :
          (row : ReceiptRow)
          → find_receipt request_id db.receipts ≡ some row
          → beq row.command (canonical_bytes command) ≡ false
          → Reason (request_conflict request_id)
      by_injection :
          find_receipt request_id db.receipts ≡ none
          → is_at at before_commit ≡ true
          → Reason (injected before_commit)

    -- The commit was made, and its response was lost; or nothing has changed.
    pub data Undone (after : Running im host) : StoreError Error → Type 0 where
      lost :
          Done after (to_receipt request_id (new_row sha state request_id command))
          → find_receipt request_id db.receipts ≡ none
          → is_at at after_commit_before_response ≡ true
          → Undone after (ambiguous request_id)
      refused :
          {e : StoreError Error} → Reason e → Holds db after → after.state ≡ state → Undone after e

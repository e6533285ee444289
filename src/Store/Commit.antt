-- ===== src/Store/Commit.antt =====
-- `receipt` and `commit` of crates/project-store/src/lib.rs.
pub mod Writes
pub mod Outcome
pub mod Retry
pub mod Succeeds
use stitch_editor.Prelude.{
  ℕ, ◌+◌, Bool, true, false, Option, none, some, List, [], ltb, ◌==◌, if◌then◌else◌, length,
}
use stitch_editor.Prelude.Result.{Result, ok, err, ok_or}
use stitch_editor.Ids.{RevisionHash}
use stitch_editor.Wire.Bytes.{Bytes, beq}
use stitch_editor.Crates.Im.{Im, Sha256}
use stitch_editor.Model.Command.{Command, canonical_bytes}
use stitch_editor.Model.Project.{Project, reduce}
use stitch_editor.History.{revision_hash}
use stitch_editor.Store.{
  RequestId, StoreError, CommitReceipt, FaultPoint, model, ambiguous, request_conflict, injected,
  corrupt_store, before_commit, after_commit_before_response, i64_limit, is_at,
}
use stitch_editor.Store.Database.{
  Database, RevisionRow, ReceiptRow, HeadRow, insert_revision, insert_receipt, upsert_head,
  find_receipt,
}
use stitch_editor.Store.Host.{Host}
use stitch_editor.Store.Monad.{
  M, return, throw, lift, modify, ◌>>=◌, ◌>>◌, fail_if, converting, on_part, transaction,
}
use stitch_editor.Store.Maintenance.{State, Db, sql_call}

-- The worker's state, and the world around it.
pub record Running (im : Im) (host : Host) : Type 0 where
  pub world : host.World
  pub state : State im host

unfoldable pub hash_from_bytes : {E : Type 0} → Bytes → Result (StoreError E) RevisionHash
hash_from_bytes bytes = if length bytes == 32 then ok bytes else err corrupt_store

-- `checked_add` on i64.
abbrev pub checked_add : ℕ → ℕ → Option ℕ
checked_add a b = if ltb (a + b) i64_limit then some (a + b) else none

-- The command of the receipt; a `query_row` that finds no row is an error of `rusqlite`, which
-- the caller of this rules out.
abbrev pub stored_command : RequestId → Database → Bytes
stored_command request_id db = elim (find_receipt request_id db.receipts) [
  | some row ↦ row.command
  | none ↦ []
]

abbrev pub revision_row : ℕ → RevisionHash → Option RevisionHash → Command → RevisionRow
revision_row sequence hash parent command = record {
  sequence = sequence;
  revision_hash = hash;
  parent_hash = parent;
  command = canonical_bytes command;
}

abbrev pub receipt_row : RequestId → RevisionHash → ℕ → Command → ReceiptRow
receipt_row request_id hash sequence command = record {
  request_id = request_id;
  revision_hash = hash;
  sequence = sequence;
  command = canonical_bytes command;
}

module _ (host : Host) where
  open host use {
    World, Connection, Error, query, execute, begin_immediate, commit_transaction, rollback,
  }

  unfoldable pub receipt_of : RequestId → Option ReceiptRow → Db host (Option CommitReceipt)
  receipt_of request_id none = return none
  receipt_of request_id (some row) = do
    hash ← lift (hash_from_bytes row.revision_hash)
    return
        (some (record { request_id = request_id; revision_hash = hash; sequence = row.sequence }))

  unfoldable pub receipt : Connection → RequestId → Db host (Option CommitReceipt)
  receipt connection request_id = do
    row ← sql_call host (query (λ db. find_receipt request_id db.receipts) connection)
    receipt_of request_id row

  -- The request id was used before.
  unfoldable pub commit_again :
      Connection → RequestId → Command → CommitReceipt → Db host CommitReceipt
  commit_again connection request_id command receipt = do
    stored ← sql_call host (query (stored_command request_id) connection)
    if beq stored (canonical_bytes command)
        then return receipt
        else throw (request_conflict request_id)

  -- The transaction of `commit`.
  unfoldable pub write_commit :
      Connection → RevisionRow → ReceiptRow → Option FaultPoint → Db host (Unit {0})
  write_commit connection revision receipt at =
      transaction (sql_call host (begin_immediate connection)) (rollback connection) (do
        sql_call host (execute (insert_revision revision) connection)
        sql_call host (execute (insert_receipt receipt) connection)
        sql_call host (
            execute
              (upsert_head
                (record { sequence = revision.sequence; revision_hash = revision.revision_hash }))
              connection)
        fail_if (is_at at before_commit) (injected before_commit)
        sql_call host (commit_transaction connection))

  module _ (im : Im) (sha : Sha256) where
    -- A call on the world of a running worker.
    abbrev pub on_world : {A : Type 0} → Db host A → M (Running im host) (StoreError Error) A
    on_world =
        on_part (λ running. running.world) (λ running world. record running { world = world })

    abbrev pub advance : Project im → RevisionHash → ℕ → Running im host → Running im host
    advance next hash sequence running = record running {
      state = record running.state { project = next; head = some hash; sequence = sequence };
    }

    -- What `commit` does once its transaction is through.
    unfoldable pub commit_end :
        State im host
        → RequestId
        → Command
        → Option FaultPoint
        → Project im
        → ℕ
        → M (Running im host) (StoreError Error) CommitReceipt
    commit_end state request_id command at next sequence = do
      modify (advance next (revision_hash sha state.head command) sequence)
      fail_if (is_at at after_commit_before_response) (ambiguous request_id)
      return (record {
        request_id = request_id;
        revision_hash = revision_hash sha state.head command;
        sequence = sequence;
      })

    -- What it does once it has the next project and the next sequence.
    unfoldable pub commit_write :
        State im host
        → RequestId
        → Command
        → Option FaultPoint
        → Project im
        → ℕ
        → M (Running im host) (StoreError Error) CommitReceipt
    commit_write state request_id command at next sequence = do
      on_world (
          write_commit state.connection
            (revision_row sequence (revision_hash sha state.head command) state.head command)
            (receipt_row request_id (revision_hash sha state.head command) sequence command) at)
      commit_end state request_id command at next sequence

    -- `commit` of a request that has no receipt, `state` being the state that it finds.
    unfoldable pub commit_new :
        State im host
        → RequestId
        → Command
        → Option FaultPoint
        → M (Running im host) (StoreError Error) CommitReceipt
    commit_new state request_id command at = do
      next ← converting model (lift (reduce im state.project command))
      sequence ← lift (ok_or (checked_add state.sequence 1) corrupt_store)
      commit_write state request_id command at next sequence

    unfoldable pub commit_found :
        State im host
        → RequestId
        → Command
        → Option FaultPoint
        → Option CommitReceipt
        → M (Running im host) (StoreError Error) CommitReceipt
    commit_found state request_id command at none = commit_new state request_id command at
    commit_found state request_id command at (some receipt) =
        on_world (commit_again state.connection request_id command receipt)

    unfoldable pub commit :
        RequestId
        → Command
        → Option FaultPoint
        → M (Running im host) (StoreError Error) CommitReceipt
    commit request_id command at running =
        (do
          found ← on_world (receipt running.state.connection request_id)
          commit_found running.state request_id command at found)
          running

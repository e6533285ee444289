-- ===== src/Store/Commit/Writes.antt =====
-- The transaction of `commit` of crates/project-store/src/lib.rs on the tables of a log.
use stitch_editor.Prelude.{
  ℕ, ◌<◌, ◌≡◌, refl, Bool, true, false, Option, none, some, List, [], ◌∷◌, ◌++◌, arith, length, ltb,
}
use stitch_editor.Ids.{RevisionHash}
use stitch_editor.Store.{StoreError, FaultPoint, sql, injected, before_commit, is_at}
use stitch_editor.Store.Database.{
  Database, RevisionRow, ReceiptRow, HeadRow, insert_revision, insert_receipt, upsert_head,
  receipt_checks, find_receipt, has_revision, insert_row, revision_checks,
}
use stitch_editor.Store.Host.{Host, Lawful}
use stitch_editor.Store.Host.Rules.{Outside, Inside, Inside-Undoable}
use stitch_editor.Store.Host.Calls.{execute_call, commit_call, transaction_call}
use stitch_editor.Store.Monad.Post.{Post, Post-bind, Post-fail_if}
use stitch_editor.Store.Commit.{write_commit}
use stitch_editor.Store.Log.Rows.{has_revision-last}

abbrev pub head_row : ℕ → RevisionHash → HeadRow
head_row sequence hash = record { sequence = sequence; revision_hash = hash }

-- The tables after the three statements.
abbrev pub with_commit : Database → RevisionRow → ReceiptRow → Database
with_commit db revision receipt = record db {
  revisions = db.revisions ++ revision ∷ [];
  receipts = receipt ∷ db.receipts;
  heads = some (head_row revision.sequence revision.revision_hash);
}

pub insert_revision-fits :
    (row : RevisionRow) (db : Database) (rows : List RevisionRow)
    → revision_checks row ≡ true
    → insert_row row db.revisions ≡ some rows
    → insert_revision row db ≡ some (record db { revisions = rows })
unfolding insert_revision
insert_revision-fits row db rows checks fits = rw (checks, fits) refl

insert_receipt-fits :
    (row : ReceiptRow) (db : Database)
    → receipt_checks row db ≡ true
    → insert_receipt row db ≡ some (record db { receipts = row ∷ db.receipts })
unfolding insert_receipt
insert_receipt-fits row db checks = rw checks refl

upsert_head-fits :
    (row : HeadRow) (db : Database)
    → 0 < row.sequence
    → length row.revision_hash ≡ 32
    → has_revision row.sequence row.revision_hash db.revisions ≡ true
    → upsert_head row db ≡ some (record db { heads = some row })
unfolding upsert_head
upsert_head-fits row db h k l = ground arith

pub receipt_checks-fits :
    (row : ReceiptRow) (db : Database)
    → length row.request_id ≡ 16
    → length row.revision_hash ≡ 32
    → 0 < row.sequence
    → ltb 0 (length row.command) ≡ true
    → find_receipt row.request_id db.receipts ≡ none
    → has_revision row.sequence row.revision_hash db.revisions ≡ true
    → receipt_checks row db ≡ true
unfolding receipt_checks
receipt_checks-fits row db a b c d e f = ground arith

module _ (host : Host) (laws : Lawful host) (c : host.Connection) (sound : Bool) where
  open host use {World, Error}

  -- Why a transaction of `commit` was dropped.
  pub data Interrupted (at : Option FaultPoint) : StoreError Error → Type 0 where
    by_engine : (e : Error) → sound ≡ false → Interrupted at (sql e)
    by_fault : is_at at before_commit ≡ true → Interrupted at (injected before_commit)

  pub write_commit-Post :
      (revision : RevisionRow) (receipt : ReceiptRow) (at : Option FaultPoint) (db : Database)
      (w : World)
      → Outside host laws c sound db w
      → insert_revision revision db ≡ some (record db { revisions = db.revisions ++ revision ∷ [] })
      → receipt_checks receipt (record db { revisions = db.revisions ++ revision ∷ [] }) ≡ true
      → 0 < revision.sequence
      → length revision.revision_hash ≡ 32
      → Post
          (λ _ t. Outside host laws c sound (with_commit db revision receipt) t)
          (λ e t. Interrupted at e × Outside host laws c sound db t)
          (write_commit host c revision receipt at w)
  unfolding write_commit
  write_commit-Post revision receipt at db w out first second positive sized =
      transaction_call host laws c sound (Interrupted at) sql by_engine _ db w out λ t inside.
        Post-bind _ _ t
          (execute_call host laws c sound (Interrupted at) sql by_engine _ db db db1 t inside first)
          λ _ t1 inside1.
            Post-bind _ _ t1
              (execute_call host laws c sound (Interrupted at) sql by_engine _ db db1 db2 t1 inside1
                (insert_receipt-fits receipt db1 second))
              λ _ t2 inside2.
                Post-bind _ _ t2
                  (execute_call host laws c sound (Interrupted at) sql by_engine _ db db2 db3 t2
                    inside2
                    (upsert_head-fits head db2 positive sized
                      (has_revision-last db.revisions revision)))
                  λ _ t3 inside3.
                    Post-bind {P = λ _ t. Inside host laws c sound db db3 t} _ _ t3
                      (Post-fail_if (is_at at before_commit) (injected before_commit) t3
                        (λ e. (by_fault e, Inside-Undoable host laws c sound db db3 t3 inside3))
                        (λ e. inside3))
                      λ _ t4 inside4.
                        commit_call host laws c sound (Interrupted at) sql by_engine db db3 t4
                          inside4
    where
      head : HeadRow
      head = head_row revision.sequence revision.revision_hash

      db1 : Database
      db1 = record db { revisions = db.revisions ++ revision ∷ [] }

      db2 : Database
      db2 = record db1 { receipts = receipt ∷ db.receipts }

      db3 : Database
      db3 = with_commit db revision receipt

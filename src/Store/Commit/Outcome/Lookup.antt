-- ===== src/Store/Commit/Outcome/Lookup.antt =====
-- What `receipt` and `commit` of crates/project-store/src/lib.rs find under a request that is known.
use stitch_editor.Prelude.{
  ◌≡◌, refl, sym, ◌∙◌, ap, subst, Bool, false, Option, none, some, length, inl, inr, Bool-cases,
}
use stitch_editor.Wire.Bytes.{beq, beq_iff}
use stitch_editor.Crates.Im.{Im, Sha256}
use stitch_editor.Model.Command.{Command, canonical_bytes}
use stitch_editor.Store.{RequestId, StoreError, FaultPoint, CommitReceipt, sql}
use stitch_editor.Store.Database.{Database, ReceiptRow, find_receipt}
use stitch_editor.Store.Host.{Host, Lawful}
use stitch_editor.Store.Host.Rules.{Outside}
use stitch_editor.Store.Host.Calls.{query_call}
use stitch_editor.Store.Monad.{◌>>=◌}
use stitch_editor.Store.Monad.Post.{Post, post_ok, post_err, Post-weaken, Post-bind}
use stitch_editor.Store.Maintenance.{State}
use stitch_editor.Store.Commit.{
  Running, receipt, receipt_of, stored_command, commit_again, hash_from_bytes,
}
use stitch_editor.Store.Log.Stored.{Stored, find_receipt-Log}
use stitch_editor.Store.Commit.Outcome.{
  Holds, Done, before, Undone, refused, Reason, by_sql, by_conflict, to_receipt,
}

-- The receipt of a row that was found.
abbrev pub known : RequestId → Option ReceiptRow → Option CommitReceipt
known request_id none = none
known request_id (some row) = some (to_receipt request_id row)

-- The worker where its world has moved.
abbrev pub at_world : {im : Im} {host : Host} → State im host → host.World → Running im host
at_world state w = record { world = w; state = state }

module _ (host : Host) (laws : Lawful host) (im : Im) (sha : Sha256) (sound : Bool) where
  open host use {World, Connection, Error}

  module _ (state : State im host) (db : Database) (request_id : RequestId) (command : Command)
      (at : Option FaultPoint) where
    -- The results of this commit.
    abbrev Held : Running im host → Type 0
    Held = Holds host laws im sha sound db

    abbrev Made : Running im host → CommitReceipt → Type 0
    Made = Done host laws im sha sound state db request_id command at

    abbrev Why : StoreError Error → Type 0
    Why = Reason host laws im sha sound state db request_id command at

    abbrev Missed : Running im host → StoreError Error → Type 0
    Missed = Undone host laws im sha sound state db request_id command at

    receipt_of-Post :
        (found : Option ReceiptRow) (w : World)
        → ((row : ReceiptRow) → found ≡ some row → length row.revision_hash ≡ 32)
        → Outside host laws state.connection sound db w
        → Post
            (λ a t. (a ≡ known request_id found) × Outside host laws state.connection sound db t)
            (λ e t. Why e × Outside host laws state.connection sound db t)
            (receipt_of host request_id found w)
    unfolding receipt_of hash_from_bytes ◌>>=◌
    receipt_of-Post none w sized out = post_ok (refl, out)
    receipt_of-Post (some row) w sized out = rw (sized row refl) (post_ok (refl, out))

    pub receipt-Post :
        (w : World)
        → Stored im sha db state.project state.head state.sequence
        → Outside host laws state.connection sound db w
        → Post
            (λ a t.
              (a ≡ known request_id (find_receipt request_id db.receipts))
              × Outside host laws state.connection sound db t)
            (λ e t. Why e × Outside host laws state.connection sound db t)
            (receipt host state.connection request_id w)
    unfolding receipt
    receipt-Post w stored out =
        Post-bind _ _ w (query_call host laws state.connection sound Why sql by_sql _ db w out)
          λ found t h.
            Post-weaken _
              (receipt_of-Post found t
                (λ row e. find_receipt-Log im sha request_id row stored.log (sym h.0 ∙ e)) h.1)
              (λ a u k. (k.0 ∙ ap (known request_id) h.0, k.1)) (λ e u k. k)

    abbrev Out : World → Type 0
    Out = Outside host laws state.connection sound db

    pub at_world-Held :
        (w : World)
        → Stored im sha db state.project state.head state.sequence
        → Out w
        → Held (at_world state w)
    at_world-Held w stored out = record { outside = out; stored = stored }

    stored_command-found :
        (row : ReceiptRow)
        → find_receipt request_id db.receipts ≡ some row
        → stored_command request_id db ≡ row.command
    stored_command-found row found = rw (stored_command, found) refl

    pub commit_again-Post :
        (w : World) (row : ReceiptRow)
        → find_receipt request_id db.receipts ≡ some row
        → Stored im sha db state.project state.head state.sequence
        → Out w
        → Post
            (λ receipt t. Made (at_world state t) receipt)
            (λ e t. Missed (at_world state t) e)
            (commit_again host state.connection request_id command (to_receipt request_id row) w)
    unfolding commit_again
    commit_again-Post w row found stored out =
        Post-bind _ _ w
          (Post-weaken _ (query_call host laws state.connection sound Why sql by_sql _ db w out)
            (λ a t h. h) (λ e t h. refused h.0 (at_world-Held t stored h.1) refl))
          λ bytes t h.
            let same : bytes ≡ row.command = h.0 ∙ stored_command-found row found in
            elim (Bool-cases (beq bytes (canonical_bytes command))) [
              | inl equal ↦ rw equal (
                  post_ok (
                    before row found (sym same ∙ (beq_iff _ _).0 equal) (at_world-Held t stored h.1)
                      refl))
              | inr apart ↦ rw apart (
                  post_err (
                    refused
                      (by_conflict row found
                        (subst (λ b. beq b (canonical_bytes command) ≡ false) same apart))
                      (at_world-Held t stored h.1) refl))
            ]

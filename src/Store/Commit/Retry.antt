-- ===== src/Store/Commit/Retry.antt =====
-- The results of `commit` of crates/project-store/src/lib.rs, and a commit made again.
use stitch_editor.Prelude.{
  ◌≡◌, ◌≢◌, refl, sym, ◌∙◌, ap, subst, ◌⊎◌, inl, inr, Bool, true, false, Option, none, some, length,
}
use stitch_editor.Prelude.Result.{Result, ok, err}
use stitch_editor.Wire.Bytes.{beq, beq_refl}
use stitch_editor.Crates.Im.{Im, Sha256}
use stitch_editor.Model.Command.{Command, IsCommand, canonical_bytes}
use stitch_editor.Store.{RequestId, StoreError, FaultPoint, CommitReceipt, ambiguous}
use stitch_editor.Store.Database.{Database, ReceiptRow, find_receipt}
use stitch_editor.Store.Host.{Host, Lawful}
use stitch_editor.Store.Monad.Post.{Post, post_ok, post_err, Post-ok, Post-err}
use stitch_editor.Store.Maintenance.{State}
use stitch_editor.Store.Commit.{Running, commit}
use stitch_editor.Store.Commit.Outcome.{
  Holds, Done, now, before, Undone, lost, refused, Reason, by_sql, by_model, by_limit, by_conflict,
  by_injection, to_receipt, new_row,
}
use stitch_editor.Store.Commit.Outcome.Steps.{commit-Post}

module _ (host : Host) (laws : Lawful host) (im : Im) (sha : Sha256) where
  open host use {World, Connection, Error, database}

  -- The request has this receipt, and the call has left all as it was.
  record Settled (after : Running im host) (receipt : CommitReceipt)
      (y : Running im host × Result (StoreError Error) CommitReceipt) : Type 0 where
    given : y.1 ≡ ok receipt
    same_state : y.0.state ≡ after.state
    same_tables :
        database y.0.world after.state.connection ≡ database after.world after.state.connection

  same_at :
      (sound : Bool) (state : State im host) (db : Database) (t : Running im host)
      → Holds host laws im sha sound db t
      → t.state ≡ state
      → database t.world state.connection ≡ db
  same_at sound state db t h e =
      subst (λ s. database t.world s.connection ≡ db) e h.outside.out_database

  module _ (after : Running im host) (db : Database) (request_id : RequestId) (command : Command)
      (at : Option FaultPoint) (row : ReceiptRow) (holds : Holds host laws im sha true db after)
      (known : find_receipt request_id db.receipts ≡ some row)
      (same : row.command ≡ canonical_bytes command) where
    not_fresh : find_receipt request_id db.receipts ≢ none
    not_fresh fresh = cc (fresh, known)

    commit-Settled :
        (receipt : CommitReceipt) (t : Running im host)
        → Done host laws im sha true after.state db request_id command at t receipt
        → Settled after (to_receipt request_id row) (t, ok receipt)
    commit-Settled _ t (now next fresh reduced h e) = absurd (not_fresh fresh)
    commit-Settled _ t (before row' found same' h e) =
        let rows : row' ≡ row = cc (found, known) in
        record {
          given = ap (λ r. ok (to_receipt request_id r)) rows;
          same_state = e;
          same_tables = same_at true after.state db t h e ∙ sym holds.outside.out_database;
        }

    Reason-Settled :
        (e : StoreError Error)
        → Reason host laws im sha true after.state db request_id command at e
        → (y : Running im host × Result (StoreError Error) CommitReceipt)
        → Settled after (to_receipt request_id row) y
    Reason-Settled _ (by_sql e failed) y = cc failed
    Reason-Settled _ (by_model e fresh reduced) y = absurd (not_fresh fresh)
    Reason-Settled _ (by_limit fresh large) y = absurd (not_fresh fresh)
    Reason-Settled _ (by_injection fresh here) y = absurd (not_fresh fresh)
    Reason-Settled _ (by_conflict row' found differs) y =
        let rows : row' ≡ row = cc (found, known) in
        let equal : beq row'.command (canonical_bytes command) ≡ true =
          rw (rows, same) (beq_refl (canonical_bytes command)) in
        cc (equal, differs)

    Undone-Settled :
        (e : StoreError Error) (t : Running im host)
        → Undone host laws im sha true after.state db request_id command at t e
        → (y : Running im host × Result (StoreError Error) CommitReceipt)
        → Settled after (to_receipt request_id row) y
    Undone-Settled _ t (lost made fresh here) y = absurd (not_fresh fresh)
    Undone-Settled e t (refused reason h same) y = Reason-Settled e reason y

    Post-Settled :
        (y : Running im host × Result (StoreError Error) CommitReceipt)
        → Post
            (λ receipt t. Done host laws im sha true after.state db request_id command at t receipt)
            (λ e t. Undone host laws im sha true after.state db request_id command at t e)
            y
        → Settled after (to_receipt request_id row) y
    Post-Settled (t, ok receipt) (post_ok made) = commit-Settled receipt t made
    Post-Settled (t, err e) (post_err undone) = Undone-Settled e t undone (t, err e)

  -- After a commit that was made, the same commit again.
  Done-Settled :
      (state : State im host) (db : Database) (request_id : RequestId) (command : Command)
      (at again : Option FaultPoint) (after : Running im host) (receipt : CommitReceipt)
      → IsCommand command
      → length request_id ≡ 16
      → Done host laws im sha true state db request_id command at after receipt
      → Settled after receipt (commit host im sha request_id command again after)
  unfolding find_receipt
  Done-Settled state db request_id command at again after _ valid sized
        (now next fresh reduced h e) =
      Post-Settled after _ request_id command again (new_row sha state request_id command) h
        (rw (beq_refl request_id) refl) refl _
        (commit-Post host laws im sha true after _ request_id command again h valid sized)
  Done-Settled state db request_id command at again after _ valid sized
        (before row found same h e) =
      Post-Settled after db request_id command again row h found same _
        (commit-Post host laws im sha true after db request_id command again h valid sized)

  -- The call returned a receipt, or the error that says that its response was lost.
  abbrev pub IsMade : RequestId → Running im host × Result (StoreError Error) CommitReceipt → Type 0
  IsMade request_id x =
      ((receipt : CommitReceipt) × (x.1 ≡ ok receipt)) ⊎ (x.1 ≡ err (ambiguous request_id))

  abbrev Lost :
      State im host → Database → RequestId → Command → Option FaultPoint → Running im host → Type 0
  Lost state db request_id command at t =
      (receipt : CommitReceipt) × Done host laws im sha true state db request_id command at t
        receipt

  to_lost :
      (state : State im host) (db : Database) (request_id : RequestId) (command : Command)
      (at : Option FaultPoint) (t : Running im host) (e : StoreError Error)
      → e ≡ ambiguous request_id
      → Undone host laws im sha true state db request_id command at t e
      → Lost state db request_id command at t
  to_lost state db r command at t _ e (lost made fresh here) = (_, made)
  to_lost state db r command at t _ e (refused (by_sql e1 failed) h same) = cc failed
  to_lost state db r command at t _ e (refused (by_model e1 fresh reduced) h same) = cc e
  to_lost state db r command at t _ e (refused (by_limit fresh large) h same) = cc e
  to_lost state db r command at t _ e (refused (by_injection fresh here) h same) = cc e
  to_lost state db r command at t _ e (refused (by_conflict row found differs) h same) = cc e

  -- In a sound world, after a commit that returned a receipt, or the error that its response was
  -- lost, the same commit returns the receipt, the same one if there was one, and changes neither
  -- the worker nor the tables.
  pub commit-retry :
      (running : Running im host) (db : Database) (request_id : RequestId) (command : Command)
      (at again : Option FaultPoint)
      → Holds host laws im sha true db running
      → IsCommand command
      → length request_id ≡ 16
      → IsMade request_id (commit host im sha request_id command at running)
      → let x = commit host im sha request_id command at running in
        let y = commit host im sha request_id command again x.0 in
        (receipt : CommitReceipt) × (y.1 ≡ ok receipt)
        × ((first : CommitReceipt) → x.1 ≡ ok first → first ≡ receipt)
        × (y.0.state ≡ x.0.state)
        × (database y.0.world x.0.state.connection ≡ database x.0.world x.0.state.connection)
  commit-retry running db request_id command at again holds valid sized (inl (receipt, e)) =
      let x = commit host im sha request_id command at running in
      let made =
        Post-ok
          {Q = λ receipt t.
            Done host laws im sha true running.state db request_id command at t receipt}
          x receipt e
          (commit-Post host laws im sha true running db request_id command at holds valid sized) in
      let s =
        Done-Settled running.state db request_id command at again x.0 receipt valid sized made in
      (receipt, s.given, λ first e1. same_ok first receipt x.1 e1 e, s.same_state, s.same_tables)
    where
      same_ok :
          (a b : CommitReceipt) (r : Result (StoreError Error) CommitReceipt)
          → r ≡ ok a
          → r ≡ ok b
          → a ≡ b
      same_ok a b r e1 e2 = cc (e1, e2)
  commit-retry running db request_id command at again holds valid sized (inr e) =
      let x = commit host im sha request_id command at running in
      let undone =
        Post-err
          {R = λ e t. Undone host laws im sha true running.state db request_id command at t e} x _ e
          (commit-Post host laws im sha true running db request_id command at holds valid sized) in
      let (receipt, made) = to_lost running.state db request_id command at x.0 _ refl undone in
      let s =
        Done-Settled running.state db request_id command at again x.0 receipt valid sized made in
      (receipt, s.given, λ first e1. not_ok first receipt x.1 e1 e, s.same_state, s.same_tables)
    where
      not_ok :
          (a b : CommitReceipt) (r : Result (StoreError Error) CommitReceipt)
          → r ≡ ok a
          → r ≡ err (ambiguous request_id)
          → a ≡ b
      not_ok a b r e1 e2 = cc (e1, e2)

  refused_unchanged :
      (state : State im host) (db : Database) (request_id : RequestId) (command : Command)
      (at : Option FaultPoint) (t : Running im host) (e : StoreError Error)
      → e ≢ ambiguous request_id
      → Undone host laws im sha false state db request_id command at t e
      → (t.state ≡ state) × (database t.world state.connection ≡ db)
  refused_unchanged state db r command at t _ apart (lost made fresh here) = absurd (apart refl)
  refused_unchanged state db r command at t e apart (refused reason h same) =
      (same, same_at false state db t h same)

  -- Where a store holds a log, a commit that returns an error, but for the one that its response
  -- was lost, has changed neither the state of the worker nor the tables.
  pub commit-refused :
      (running : Running im host) (db : Database) (request_id : RequestId) (command : Command)
      (at : Option FaultPoint) (e : StoreError Error)
      → Holds host laws im sha false db running
      → IsCommand command
      → length request_id ≡ 16
      → (commit host im sha request_id command at running).1 ≡ err e
      → e ≢ ambiguous request_id
      → let after = (commit host im sha request_id command at running).0 in
        (after.state ≡ running.state)
        × (database after.world running.state.connection
            ≡ database running.world running.state.connection)
  commit-refused running db request_id command at e holds valid sized fails apart =
      let x = commit host im sha request_id command at running in
      let (state, tables) = refused_unchanged running.state db request_id command at x.0 e apart (
        Post-err
          {R = λ e t. Undone host laws im sha false running.state db request_id command at t e} x e
          fails
          (commit-Post host laws im sha false running db request_id command at holds valid
            sized)) in
      (state, tables ∙ sym holds.outside.out_database)

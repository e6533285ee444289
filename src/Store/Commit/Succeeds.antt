-- ===== src/Store/Commit/Succeeds.antt =====
-- A commit of a new request in crates/project-store/src/lib.rs, where nothing fails.
use stitch_editor.Prelude.{
  ◌+◌, ◌<◌, ◌≡◌, ◌≢◌, refl, ◌∙◌, ap, subst, true, false, none, length, ltb, arith,
}
use stitch_editor.Prelude.Result.{Result, ok, err}
use stitch_editor.Crates.Im.{Im, Sha256}
use stitch_editor.Model.Command.{Command, IsCommand}
use stitch_editor.Model.Project.{Project, reduce}
use stitch_editor.Store.{RequestId, StoreError, CommitReceipt, i64_limit}
use stitch_editor.Store.Database.{Database, find_receipt}
use stitch_editor.Store.Host.{Host, Lawful}
use stitch_editor.Store.Monad.Post.{Post, post_ok, post_err}
use stitch_editor.Store.Maintenance.{State}
use stitch_editor.Store.Commit.{Running, commit}
use stitch_editor.Store.Commit.Outcome.{
  Holds, Done, now, before, Undone, lost, refused, Reason, by_sql, by_model, by_limit, by_conflict,
  by_injection, to_receipt, new_row, new_db, new_state,
}
use stitch_editor.Store.Commit.Outcome.Steps.{commit-Post}

module _ (host : Host) (laws : Lawful host) (im : Im) (sha : Sha256) where
  open host use {Error, database}

  module _ (state : State im host) (db : Database) (request_id : RequestId) (command : Command)
      (next : Project im) where
    -- The receipt of the new revision, the state that goes with it, and its rows in the tables.
    record Committed (x : Running im host × Result (StoreError Error) CommitReceipt) : Type 0 where
      given : x.1 ≡ ok (to_receipt request_id (new_row sha state request_id command))
      advanced : x.0.state ≡ new_state sha state command next
      written : database x.0.world state.connection ≡ new_db sha state db request_id command

    module _ (fresh : find_receipt request_id db.receipts ≡ none)
        (reduced : reduce im state.project command ≡ ok next)
        (small : state.sequence + 1 < i64_limit) where
      Reason-Committed :
          (e : StoreError Error)
          → Reason host laws im sha true state db request_id command none e
          → (y : Running im host × Result (StoreError Error) CommitReceipt) → Committed y
      Reason-Committed _ (by_sql e failed) y = cc failed
      Reason-Committed _ (by_model e h failed) y = cc (reduced, failed)
      Reason-Committed _ (by_limit h large) y = absurd (not_large large)
        where
          not_large : ltb (state.sequence + 1) i64_limit ≢ false
          not_large h = ground arith
      Reason-Committed _ (by_injection h here) y = cc here
      Reason-Committed _ (by_conflict row found differs) y = cc (fresh, found)

      Post-Committed :
          (y : Running im host × Result (StoreError Error) CommitReceipt)
          → Post
              (λ receipt t. Done host laws im sha true state db request_id command none t receipt)
              (λ e t. Undone host laws im sha true state db request_id command none t e)
              y
          → Committed y
      Post-Committed (t, ok _) (post_ok (now other h made holds e)) = record {
        given = refl;
        advanced =
            let others : other ≡ next = cc (made, reduced) in
            e ∙ ap (new_state sha state command) others;
        written =
            subst (λ s. database t.world s.connection ≡ new_db sha state db request_id command) e
              holds.outside.out_database;
      }
      Post-Committed (t, ok _) (post_ok (before row found same holds e)) = cc (fresh, found)
      Post-Committed (t, err _) (post_err (lost made h here)) = cc here
      Post-Committed (t, err e) (post_err (refused reason holds same)) =
          Reason-Committed e reason (t, err e)

  -- In a sound world, where a store holds a log, a commit without a fault of a request with no
  -- receipt, whose command reduces and whose sequence fits, returns the receipt of the next
  -- revision, and the worker and the tables have advanced to it.
  pub commit-succeeds :
      (running : Running im host) (db : Database) (request_id : RequestId) (command : Command)
      (next : Project im)
      → Holds host laws im sha true db running
      → IsCommand command
      → length request_id ≡ 16
      → find_receipt request_id db.receipts ≡ none
      → reduce im running.state.project command ≡ ok next
      → running.state.sequence + 1 < i64_limit
      → let x = commit host im sha request_id command none running in
        let row = new_row sha running.state request_id command in
        (x.1 ≡ ok (to_receipt request_id row))
        × (x.0.state ≡ new_state sha running.state command next)
        × (database x.0.world running.state.connection
            ≡ new_db sha running.state db request_id command)
  commit-succeeds running db request_id command next holds valid sized fresh reduced small =
      let c =
        Post-Committed running.state db request_id command next fresh reduced small _ (
          commit-Post host laws im sha true running db request_id command none holds valid sized) in
      (c.given, c.advanced, c.written)

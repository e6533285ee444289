-- ===== src/Store/Commit/Outcome/Advance.antt =====
-- The end of a `commit` of crates/project-store/src/lib.rs whose request is new.
use stitch_editor.Prelude.{◌+◌, ◌<◌, ◌≡◌, refl, Bool, Option, none, arith, length}
use stitch_editor.Prelude.Result.{ok}
use stitch_editor.Crates.Im.{Im, Sha256}
use stitch_editor.Model.Command.{Command, IsCommand}
use stitch_editor.Model.Project.{Project, reduce}
use stitch_editor.Store.{
  RequestId, StoreError, FaultPoint, CommitReceipt, ambiguous, after_commit_before_response,
  i64_limit, is_at,
}
use stitch_editor.Store.Database.{Database, find_receipt}
use stitch_editor.Store.Host.{Host, Lawful}
use stitch_editor.Store.Host.Rules.{Outside}
use stitch_editor.Store.Monad.Post.{
  Post, post_ok, Post-weaken, Post-bind, Post-on_part, Post-fail_if,
}
use stitch_editor.Store.Maintenance.{State}
use stitch_editor.Store.Commit.{Running, commit_end, commit_write}
use stitch_editor.Store.Commit.Writes.{write_commit-Post, Interrupted, by_engine, by_fault}
use stitch_editor.Store.Log.Stored.{Stored, Stored-next, revision-fits, receipt-fits}
use stitch_editor.Store.Log.Rows.{length-revision_hash}
use stitch_editor.Store.Commit.Outcome.{
  Holds, Done, now, Undone, lost, refused, Reason, by_sql, by_injection, to_receipt, new_row,
  new_db, new_state,
}
use stitch_editor.Store.Commit.Outcome.Lookup.{at_world, at_world-Held}

module _ (host : Host) (laws : Lawful host) (im : Im) (sha : Sha256) (sound : Bool) where
  open host use {World, Connection, Error}

  module _ (state : State im host) (db : Database) (request_id : RequestId) (command : Command)
      (at : Option FaultPoint) where
    -- The results of this commit.
    abbrev Held : Running im host → Type 0
    Held = Holds host laws im sha sound db

    abbrev Made : Running im host → CommitReceipt → Type 0
    Made = Done host laws im sha sound state db request_id command at

    abbrev Why : StoreError Error → Type 0
    Why = Reason host laws im sha sound state db request_id command at

    abbrev Missed : Running im host → StoreError Error → Type 0
    Missed = Undone host laws im sha sound state db request_id command at

    abbrev Out : World → Type 0
    Out = Outside host laws state.connection sound db

    interrupted :
        (e : StoreError Error) (t : World)
        → find_receipt request_id db.receipts ≡ none
        → Stored im sha db state.project state.head state.sequence
        → Interrupted host laws state.connection sound at e
        → Out t
        → Missed (at_world state t) e
    interrupted _ t fresh stored (by_engine e failed) out =
        refused (by_sql e failed)
          (at_world-Held host laws im sha sound state db request_id command at t stored out) refl
    interrupted _ t fresh stored (by_fault here) out =
        refused (by_injection fresh here)
          (at_world-Held host laws im sha sound state db request_id command at t stored out) refl

    new_db-Made :
        (u : World) (next : Project im)
        → find_receipt request_id db.receipts ≡ none
        → reduce im state.project command ≡ ok next
        → Stored im sha db state.project state.head state.sequence
        → IsCommand command
        → length request_id ≡ 16
        → state.sequence + 1 < i64_limit
        → Outside host laws state.connection sound (new_db sha state db request_id command) u
        → Made
            (record { world = u; state = new_state sha state command next })
            (to_receipt request_id (new_row sha state request_id command))
    new_db-Made u next fresh reduced stored valid sized small out =
        now next fresh reduced
          (record {
            outside = out;
            stored =
                Stored-next im sha db state.project state.head state.sequence request_id command
                  next stored valid sized fresh small reduced;
          })
          refl

    -- The transaction is through, and the state is the old one.
    data Written : Running im host → Type 0 where
      written :
          (u : World)
          → Outside host laws state.connection sound (new_db sha state db request_id command) u
          → Written (at_world state u)

    commit_end-Post :
        (t : Running im host) (next : Project im)
        → Written t
        → ((u : World)
            → Outside host laws state.connection sound (new_db sha state db request_id command) u
            → Made
                (record { world = u; state = new_state sha state command next })
                (to_receipt request_id (new_row sha state request_id command)))
        → find_receipt request_id db.receipts ≡ none
        → Post
            (λ receipt t. Made t receipt)
            (λ e t. Missed t e)
            (commit_end host im sha state request_id command at next (state.sequence + 1) t)
    unfolding commit_end
    commit_end-Post _ next (written u kept) done fresh =
        Post-bind {P = λ _ t. Made t (to_receipt request_id (new_row sha state request_id command))}
          _ _ (at_world state u) (post_ok (done u kept))
          λ _ t made.
            Post-bind
              {P = λ _ t. Made t (to_receipt request_id (new_row sha state request_id command))} _ _
              t
              (Post-fail_if (is_at at after_commit_before_response) (ambiguous request_id) t
                (lost made fresh) (λ e. made))
              λ _ t made. post_ok made

    -- The end of the commit, from its transaction on.
    pub commit_write-Post :
        (w : World) (next : Project im)
        → find_receipt request_id db.receipts ≡ none
        → reduce im state.project command ≡ ok next
        → Stored im sha db state.project state.head state.sequence
        → IsCommand command
        → length request_id ≡ 16
        → state.sequence + 1 < i64_limit
        → Out w
        → Post
            (λ receipt t. Made t receipt)
            (λ e t. Missed t e)
            (commit_write host im sha state request_id command at next
              (state.sequence + 1)
              (at_world state w))
    unfolding commit_write
    commit_write-Post w next fresh reduced stored valid sized small out =
        Post-bind {P = λ _ t. Written t} _ _ (at_world state w)
          (Post-on_part _ _ _ (at_world state w) (
            Post-weaken _
              (write_commit-Post host laws state.connection sound _ _ at db w out
                (revision-fits im sha db state.project state.head state.sequence command stored)
                (receipt-fits im sha db state.head state.sequence request_id command sized fresh)
                (omega arith) (length-revision_hash sha state.head command))
              (λ a t h. written t h) (λ e t h. interrupted e t fresh stored h.0 h.1)))
          λ _ t h.
            commit_end-Post t next h
              (λ u kept. new_db-Made u next fresh reduced stored valid sized small kept) fresh

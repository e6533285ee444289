-- ===== src/Store/Commit/Outcome/Steps.antt =====
-- The steps of `commit` of crates/project-store/src/lib.rs and their results.
use stitch_editor.Prelude.{
  ◌+◌, ◌≡◌, refl, sym, subst, Bool, Option, none, some, arith, length, inl, inr, Bool-cases, ltb,
}
use stitch_editor.Prelude.Result.{Result-cases}
use stitch_editor.Crates.Im.{Im, Sha256}
use stitch_editor.Model.Command.{Command, IsCommand}
use stitch_editor.Model.Project.{reduce}
use stitch_editor.Store.{RequestId, StoreError, FaultPoint, CommitReceipt, i64_limit}
use stitch_editor.Store.Database.{Database, ReceiptRow, find_receipt}
use stitch_editor.Store.Host.{Host, Lawful}
use stitch_editor.Store.Host.Rules.{Outside}
use stitch_editor.Store.Monad.{converting, ◌>>=◌}
use stitch_editor.Store.Monad.Post.{Post, post_err, Post-weaken, Post-bind, Post-on_part}
use stitch_editor.Store.Maintenance.{State}
use stitch_editor.Store.Commit.{Running, commit_new, commit_found, commit}
use stitch_editor.Store.Log.Stored.{Stored}
use stitch_editor.Store.Commit.Outcome.{Holds, Done, Undone, refused, Reason, by_model, by_limit}
use stitch_editor.Store.Commit.Outcome.Lookup.{
  known, at_world, at_world-Held, receipt-Post, commit_again-Post,
}
use stitch_editor.Store.Commit.Outcome.Advance.{commit_write-Post}

module _ (host : Host) (laws : Lawful host) (im : Im) (sha : Sha256) (sound : Bool) where
  open host use {World, Connection, Error}

  module _ (state : State im host) (db : Database) (request_id : RequestId) (command : Command)
      (at : Option FaultPoint) where
    -- The results of this commit.
    abbrev Held : Running im host → Type 0
    Held = Holds host laws im sha sound db

    abbrev Made : Running im host → CommitReceipt → Type 0
    Made = Done host laws im sha sound state db request_id command at

    abbrev Why : StoreError Error → Type 0
    Why = Reason host laws im sha sound state db request_id command at

    abbrev Missed : Running im host → StoreError Error → Type 0
    Missed = Undone host laws im sha sound state db request_id command at

    abbrev Out : World → Type 0
    Out = Outside host laws state.connection sound db

    commit_new-Post :
        (w : World)
        → find_receipt request_id db.receipts ≡ none
        → Stored im sha db state.project state.head state.sequence
        → IsCommand command
        → length request_id ≡ 16
        → Out w
        → Post
            (λ receipt t. Made t receipt)
            (λ e t. Missed t e)
            (commit_new host im sha state request_id command at (at_world state w))
    unfolding commit_new ◌>>=◌ converting
    commit_new-Post w fresh stored valid sized out =
        elim (Result-cases (reduce im state.project command)) [
          | inl (next, e) ↦ elim (Bool-cases (ltb (state.sequence + 1) i64_limit)) [
            | inl small ↦
                rw (e, small)
                  (commit_write-Post host laws im sha sound state db request_id command at w next
                    fresh e stored valid sized (ground arith) out)
            | inr large ↦
                rw (e, large)
                  (post_err (
                    refused (by_limit fresh large)
                      (at_world-Held host laws im sha sound state db request_id command at w stored
                        out)
                      refl))
          ]
          | inr (error, e) ↦ rw e (
              post_err (
                refused (by_model error fresh e)
                  (at_world-Held host laws im sha sound state db request_id command at w stored out)
                  refl))
        ]

    commit_found-Post :
        (found : Option ReceiptRow) (w : World)
        → find_receipt request_id db.receipts ≡ found
        → Stored im sha db state.project state.head state.sequence
        → IsCommand command
        → length request_id ≡ 16
        → Out w
        → Post
            (λ receipt t. Made t receipt)
            (λ e t. Missed t e)
            (commit_found host im sha state request_id command at
              (known request_id found)
              (at_world state w))
    unfolding commit_found
    commit_found-Post none w fresh stored valid sized out =
        commit_new-Post w fresh stored valid sized out
    commit_found-Post (some row) w found stored valid sized out =
        Post-on_part _ _ _ (at_world state w) (
          commit_again-Post host laws im sha sound state db request_id command at w row found stored
            out)

    -- What the first query has found.
    data Looked : Option CommitReceipt → Running im host → Type 0 where
      looked :
          (u : World)
          → Out u
          → Looked (known request_id (find_receipt request_id db.receipts)) (at_world state u)

    to_looked :
        (found : Option CommitReceipt) (u : World)
        → found ≡ known request_id (find_receipt request_id db.receipts)
        → Out u
        → Looked found (at_world state u)
    to_looked found u e out = subst (λ f. Looked f (at_world state u)) (sym e) (looked u out)

    commit_found-Looked :
        (found : Option CommitReceipt) (t : Running im host)
        → Looked found t
        → Stored im sha db state.project state.head state.sequence
        → IsCommand command
        → length request_id ≡ 16
        → Post
            (λ receipt t. Made t receipt)
            (λ e t. Missed t e)
            (commit_found host im sha state request_id command at found t)
    commit_found-Looked _ _ (looked u out) stored valid sized =
        commit_found-Post (find_receipt request_id db.receipts) u refl stored valid sized out

    commit_at-Post :
        (w : World)
        → Stored im sha db state.project state.head state.sequence
        → IsCommand command
        → length request_id ≡ 16
        → Out w
        → Post
            (λ receipt t. Made t receipt)
            (λ e t. Missed t e)
            (commit host im sha request_id command at (at_world state w))
    unfolding commit
    commit_at-Post w stored valid sized out =
        Post-bind {P = Looked} _ _ (at_world state w)
          (Post-on_part _ _ _ (at_world state w) (
            Post-weaken _
              (receipt-Post host laws im sha sound state db request_id command at w stored out)
              (λ found t h. to_looked found t h.0 h.1)
              (λ e t h.
                refused h.0
                  (at_world-Held host laws im sha sound state db request_id command at t stored h.1)
                  refl)))
          λ found t h. commit_found-Looked found t h stored valid sized

  -- Every result of `commit`, and what it leaves.
  pub commit-Post :
      (running : Running im host) (db : Database) (request_id : RequestId) (command : Command)
      (at : Option FaultPoint)
      → Holds host laws im sha sound db running
      → IsCommand command
      → length request_id ≡ 16
      → Post
          (λ receipt t.
            Done host laws im sha sound running.state db request_id command at t receipt)
          (λ e t. Undone host laws im sha sound running.state db request_id command at t e)
          (commit host im sha request_id command at running)
  commit-Post running db request_id command at holds valid sized =
      commit_at-Post running.state db request_id command at running.world holds.stored valid sized
        holds.outside

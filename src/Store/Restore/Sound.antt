-- ===== src/Store/Restore/Sound.antt =====
-- What a database holds where `restore` of crates/project-store/src/lib.rs gives a result.
use stitch_editor.Prelude.{
  ℕ, ◌≡◌, refl, subst, Bool, true, false, not, Option, none, some, List, [], ◌==◌, length,
  if◌then◌else◌,
}
use stitch_editor.Prelude.Result.{Result, ok, err, passed, passes, fail_if}
use stitch_editor.Ids.{RevisionHash}
use stitch_editor.Crates.Im.{Im, Sha256}
use stitch_editor.Model.Command.{Command}
use stitch_editor.Model.Project.{Project}
use stitch_editor.History.Replay.{replay}
use stitch_editor.Store.{StoreError, sql, corrupt_store}
use stitch_editor.Store.Database.{Database, SnapshotRow, HeadRow, RevisionRow}
use stitch_editor.Store.Host.{Host, Lawful}
use stitch_editor.Store.Host.Rules.{Outside}
use stitch_editor.Store.Host.Calls.{query_call}
use stitch_editor.Store.Monad.Post.{
  Post, post_ok, post_err, Post-ok, Post-weaken, Post-bind, Post-fail_if,
}
use stitch_editor.Store.Maintenance.{sql_call}
use stitch_editor.Store.Commit.{hash_from_bytes}
use stitch_editor.Store.Replay.{
  Progress, started, restore_rows, check_head, compare_head, same_hash,
}
use stitch_editor.Store.Replay.Sound.{decode_onto, started-Ends}
use stitch_editor.Store.Restore.{check_revision, check_snapshot, validate_receipts, restore}

abbrev result_of : {im : Im} → Progress im → Project im × Option RevisionHash × ℕ
result_of progress = (progress.project, progress.head, progress.sequence)

module _ (im : Im) (sha : Sha256) {E : Type 0} where
  compare_head-ok :
      (head : HeadRow) (progress : Progress im) (a : Project im × Option RevisionHash × ℕ)
      → compare_head im sha {E = E} head progress ≡ ok a
      → result_of progress ≡ a
  unfolding compare_head
  compare_head-ok head progress a h = elim (passed (hash_from_bytes head.revision_hash) _ h) [
    | passes hash e r ↦
        elim (passed (fail_if (not (same_hash (some hash) progress.head)) corrupt_store) _ r) [
          | passes u e1 r1 ↦ cc r1
        ]
  ]

  if-ok :
      {A : Type 0} (test : Bool) (x : Result (StoreError E) A) (a : A)
      → (if test then x else err corrupt_store) ≡ ok a
      → x ≡ ok a
  if-ok true x a h = h
  if-ok false x a h = cc h

  check_head-ok :
      (expected : Option HeadRow) (progress : Progress im)
      (a : Project im × Option RevisionHash × ℕ)
      → check_head im sha {E = E} expected progress ≡ ok a
      → result_of progress ≡ a
  unfolding check_head
  check_head-ok none progress a h = cc (if-ok (progress.sequence == 0) _ a h)
  check_head-ok (some head) progress a h =
      compare_head-ok head progress a (if-ok (head.sequence == progress.sequence) _ a h)

-- The revisions decode to commands whose replay gives this project and hash, and number.
abbrev pub IsReplay :
    (im : Im) → Sha256 → List RevisionRow → Project im → Option RevisionHash → ℕ → Type 0
IsReplay im sha rows project head sequence =
    (commands : List Command) × (decode_onto [] rows ≡ ok commands)
    × (replay im sha commands ≡ ok (project, head))
    × (length commands ≡ sequence)

module _ (host : Host) (laws : Lawful host) (im : Im) (sha : Sha256) (c : host.Connection)
    (db : Database) where
  open host use {World, Connection, Error}

  abbrev Out : World → Type 0
  Out = Outside host laws c false db

  -- A call that only reads.
  abbrev OnlyReads : {A : Type 0} → World × Result (StoreError Error) A → Type 0
  OnlyReads {A = A} x = Post (λ (a : A) t. Out t) (λ e t. Unit) x

  only_query :
      {A : Type 0} (f : Database → A) (w : World)
      → Out w
      → Post (λ a t. (a ≡ f db) × Out t) (λ e t. Unit) (sql_call host (host.query f c) w)
  only_query f w out =
      Post-weaken _ (query_call host laws c false (λ e. Unit) sql (λ e h. tt) f db w out)
        (λ a t h. h) (λ e t h. tt)

  only_lift :
      {A : Type 0} (r : Result (StoreError Error) A) (w : World)
      → Out w
      → Post (λ a t. (r ≡ ok a) × Out t) (λ e t. Unit) (w, r)
  only_lift (ok a) w out = post_ok (refl, out)
  only_lift (err e) w out = post_err tt

  only_fail_if :
      (test : Bool) (w : World)
      → Out w
      → OnlyReads (stitch_editor.Store.Monad.fail_if test corrupt_store w)
  only_fail_if test w out = Post-fail_if test corrupt_store w (λ e. tt) (λ e. out)

  check_revision-OnlyReads :
      (snapshot : SnapshotRow) (refuse : Bool) (w : World)
      → Out w
      → OnlyReads (check_revision host im sha c snapshot refuse w)
  unfolding check_revision
  check_revision-OnlyReads snapshot true w out = post_err tt
  check_revision-OnlyReads snapshot false w out =
      Post-bind _ _ w (only_query _ w out) λ there t h. only_fail_if (not there) t h.1

  check_snapshot-OnlyReads :
      (snapshot : Option SnapshotRow) (w : World)
      → Out w
      → OnlyReads (check_snapshot host im sha c snapshot w)
  unfolding check_snapshot
  check_snapshot-OnlyReads none w out = post_ok out
  check_snapshot-OnlyReads (some snapshot) w out =
      Post-bind _ _ w (only_lift _ w out) λ project t h. check_revision-OnlyReads snapshot _ t h.1

  validate_receipts-OnlyReads : (w : World) → Out w → OnlyReads (validate_receipts host c w)
  unfolding validate_receipts
  validate_receipts-OnlyReads w out = Post-bind _ _ w (only_query _ w out) λ receipts w1 h1.
      Post-bind _ _ w1 (only_query _ w1 h1.1) λ revisions w2 h2.
        Post-bind _ _ w2 (only_query _ w2 h2.1) λ mismatch w3 h3. only_fail_if _ w3 h3.1

  abbrev Replays : Project im × Option RevisionHash × ℕ → Type 0
  Replays a = IsReplay im sha db.revisions a.0 a.1 a.2

  ends_result :
      (snapshot : Option SnapshotRow) (progress : Progress im)
      (a : Project im × Option RevisionHash × ℕ)
      → restore_rows im sha {E = Error} snapshot (started im snapshot) db.revisions ≡ ok progress
      → result_of progress ≡ a
      → Replays a
  ends_result snapshot progress a loop e =
      let ends = started-Ends im sha snapshot db.revisions progress loop in
      subst Replays e (ends.commands, ends.decoded, ends.ends_replay, ends.ends_count)

  pub restore-Post :
      (w : World) → Out w → Post (λ a t. Replays a × Out t) (λ e t. Unit) (restore host im sha c w)
  unfolding restore
  restore-Post w out = Post-bind _ _ w (only_query _ w out) λ expected w1 h1.
      Post-bind _ _ w1 (only_query _ w1 h1.1) λ snapshot w2 h2.
        Post-bind _ _ w2 (check_snapshot-OnlyReads snapshot w2 h2.1) λ _ w3 h3.
          Post-bind _ _ w3 (only_query _ w3 h3) λ rows w4 h4.
            Post-bind _ _ w4 (only_lift _ w4 h4.1) λ progress w5 h5.
              Post-bind _ _ w5 (only_fail_if _ w5 h5.1) λ _ w6 h6.
                Post-bind _ _ w6 (validate_receipts-OnlyReads w6 h6) λ _ w7 h7.
                  Post-weaken _ (only_lift _ w7 h7)
                    (λ a t h8. (
                      ends_result snapshot progress a
                          (subst
                            (λ r.
                              restore_rows im sha {E = Error} snapshot (started im snapshot) r
                              ≡ ok progress)
                            h4.0 h5.0)
                          (check_head-ok im sha expected progress a h8.0),
                      h8.1,
                    ))
                    (λ e t h. tt)

  -- Whatever the tables hold, outside of a transaction, a result of restore is the replay of the
  -- commands that the revisions decode to, in their order from the default project with the chain
  -- of hashes, and its sequence is their number.
  pub restore-IsReplay :
      (w : World) (project : Project im) (head : Option RevisionHash) (sequence : ℕ)
      → Out w
      → (restore host im sha c w).1 ≡ ok (project, head, sequence)
      → IsReplay im sha db.revisions project head sequence
  restore-IsReplay w project head sequence out h =
      (Post-ok {Q = λ a t. Replays a × Out t} (restore host im sha c w) _ h (restore-Post w out)).0

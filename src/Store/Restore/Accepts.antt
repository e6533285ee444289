-- ===== src/Store/Restore/Accepts.antt =====
-- `restore` of crates/project-store/src/lib.rs on a database that holds a log.
use stitch_editor.Prelude.{
  ℕ, ◌≤◌, ◌<◌, ◌≡◌, ◌≢◌, refl, sym, ◌∙◌, ap, subst, Bool, true, false, not, ◌||◌, Option, none,
  some, List, [], ◌∷◌, arith, ◌==◌,
}
use stitch_editor.Prelude.Result.{Result, ok, ◌>>=◌}
use stitch_editor.Ids.{RevisionHash}
use stitch_editor.Wire.Bytes.{beq, beq_refl}
use stitch_editor.Crates.Im.{Im, Sha256}
use stitch_editor.Model.Project.{Project}
use stitch_editor.Model.Project.Encode.{semantic_digest}
use stitch_editor.Model.Project.Validate.{project_from_canonical_bytes}
use stitch_editor.Store.{StoreError, sql, corrupt_store}
use stitch_editor.Store.Database.{
  Database, RevisionRow, ReceiptRow, SnapshotRow, HeadRow, last_snapshot, has_revision,
}
use stitch_editor.Store.Host.{Host, Lawful}
use stitch_editor.Store.Host.Rules.{Outside}
use stitch_editor.Store.Host.Calls.{query_call}
use stitch_editor.Store.Monad.Post.{Post, post_ok, Post-bind, Post-fail_if}
use stitch_editor.Store.Maintenance.{sql_call}
use stitch_editor.Store.Replay.{Progress, started, restore_rows, check_head, compare_head}
use stitch_editor.Store.Replay.Accepts.{
  reached, met, OptionAgrees, restore_rows-Log, hash_from_bytes-ok, same_hash_refl,
}
use stitch_editor.Store.Restore.{
  check_revision, check_snapshot, validate_receipts, restore, is_no_hash,
}
use stitch_editor.Store.Log.{Log, Agrees}
use stitch_editor.Store.Log.Rows.{HeadFits, Log-HeadFits}
use stitch_editor.Store.Log.Stored.{Stored, AllAgree, head_of}
use stitch_editor.Store.Log.Receipts.{Log-matched, Log-lengths, Agrees-found}

module _ (im : Im) (sha : Sha256) where
  -- The newest snapshot, if there is one, decodes to a project of its digest.
  abbrev pub IsReadable : Option SnapshotRow → Type 0
  IsReadable none = Unit
  IsReadable (some snapshot) =
      (project : Project im) × (project_from_canonical_bytes im snapshot.project ≡ ok project)
      × (semantic_digest im sha project ≡ snapshot.project_digest)

  module _ {rows : List RevisionRow} {receipts : List ReceiptRow} {project : Project im}
      {head : Option RevisionHash} {sequence : ℕ}
      (log : Log im sha rows receipts project head sequence) where
    abbrev Fits : Option SnapshotRow → Type 0
    Fits none = Unit
    Fits (some snapshot) =
        (0 < snapshot.sequence) × (snapshot.sequence ≤ sequence) × Agrees im sha snapshot log

    last_snapshot-Fits :
        (snapshots : List SnapshotRow)
        → AllAgree im sha snapshots log
        → Fits (last_snapshot snapshots)
    unfolding last_snapshot
    last_snapshot-Fits [] all = tt
    last_snapshot-Fits (snapshot ∷ rest) all =
        last_of snapshot (last_snapshot rest) all.0 (last_snapshot-Fits rest all.1)
      where
        last_of :
            (s : SnapshotRow) (last : Option SnapshotRow)
            → Fits (some s)
            → Fits last
            → Fits (elim last [ none ↦ some s | some l ↦ some l ])
        last_of s none first fits = first
        last_of s (some l) first fits = fits

    Fits-OptionAgrees :
        (snapshot : Option SnapshotRow) → Fits snapshot → OptionAgrees im sha snapshot log
    Fits-OptionAgrees none fits = tt
    Fits-OptionAgrees (some snapshot) fits = (fits.0, fits.2)

    Fits-met : (snapshot : Option SnapshotRow) → Fits snapshot → met snapshot sequence ≡ true
    Fits-met none fits = refl
    Fits-met (some snapshot) fits = ground arith

  check_head-log :
      {E : Type 0} (snapshot : Option SnapshotRow) (project : Project im)
      (head : Option RevisionHash) (sequence : ℕ)
      → HeadFits head sequence
      → check_head im sha {E = E}
          (head_of head sequence)
          (reached im sha snapshot project head sequence)
        ≡ ok (project, head, sequence)
  unfolding check_head compare_head
  check_head-log snapshot project none sequence h = ground arith
  check_head-log snapshot project (some hash) sequence h =
      let here : (sequence == sequence) ≡ true = ground arith in
      rw (here, hash_from_bytes-ok hash h.1, ◌>>=◌, same_hash_refl (some hash)) refl

module _ (host : Host) (laws : Lawful host) (im : Im) (sha : Sha256) (c : host.Connection)
    (sound : Bool) (db : Database) where
  open host use {World, Connection, Error}

  -- The call leaves the tables, and only fails in a world that is not sound.
  abbrev Reads : {A : Type 0} → (A → Type 0) → World × Result (StoreError Error) A → Type 0
  Reads {A = A} Q x =
      Post (λ (a : A) t. Q a × Outside host laws c sound db t)
        (λ e t. (sound ≡ false) × Outside host laws c sound db t) x

  read_query :
      {A : Type 0} (f : Database → A) (w : World)
      → Outside host laws c sound db w
      → Reads (λ a. a ≡ f db) (sql_call host (host.query f c) w)
  read_query f w out = query_call host laws c sound (λ e. sound ≡ false) sql (λ e h. h) f db w out

  check_revision-Reads :
      (snapshot : SnapshotRow) (w : World)
      → Outside host laws c sound db w
      → has_revision snapshot.sequence snapshot.revision_hash db.revisions ≡ true
      → Reads (λ _. Unit) (check_revision host im sha c snapshot false w)
  unfolding check_revision
  check_revision-Reads snapshot w out there = Post-bind _ _ w (read_query _ w out) λ found t h.
      Post-fail_if (not found) corrupt_store t (λ e. ground (arith, h.0, there)) (λ e. (tt, h.1))

  module _ {project : Project im} {head : Option RevisionHash} {sequence : ℕ}
      (log : Log im sha db.revisions db.receipts project head sequence) where
    check_snapshot-Reads :
        (snapshot : Option SnapshotRow) (w : World)
        → Outside host laws c sound db w
        → Fits im sha log snapshot
        → IsReadable im sha snapshot
        → Reads (λ _. Unit) (check_snapshot host im sha c snapshot w)
    unfolding check_snapshot
    check_snapshot-Reads none w out fits readable = post_ok (tt, out)
    check_snapshot-Reads (some snapshot) w out fits (decoded, decodes, digest) =
        let (sized, there) = Agrees-found im sha snapshot log fits.0 fits.1 fits.2 in
        Post-bind {P = λ p t. (p ≡ decoded) × Outside host laws c sound db t} _ _ w
          (rw decodes (post_ok (refl, out)))
          λ p t h.
            let same : beq (semantic_digest im sha p) snapshot.project_digest ≡ true =
              rw (h.0, digest) (beq_refl snapshot.project_digest) in
            let fine : (not (beq (semantic_digest im sha p) snapshot.project_digest)
                  || is_no_hash snapshot.revision_hash)
                ≡ false =
              ground arith in
            rw fine (check_revision-Reads snapshot t h.1 there)

    validate_receipts-Reads :
        (w : World)
        → Outside host laws c sound db w
        → Reads (λ _. Unit) (validate_receipts host c w)
    unfolding validate_receipts
    validate_receipts-Reads w out = Post-bind _ _ w (read_query _ w out) λ receipt_count w1 h1.
        Post-bind _ _ w1 (read_query _ w1 h1.1) λ revision_count w2 h2.
          Post-bind _ _ w2 (read_query _ w2 h2.1) λ mismatch w3 h3.
            Post-fail_if _ corrupt_store w3
              (λ e.
                ground (arith, h1.0, h2.0, h3.0, Log-lengths im sha log, Log-matched im sha log))
              (λ e. (tt, h3.1))

  loop-log :
      {project : Project im} {head : Option RevisionHash} {sequence : ℕ}
      (stored : Stored im sha db project head sequence) (snapshot : Option SnapshotRow)
      (rows : List RevisionRow)
      → Fits im sha stored.log snapshot
      → rows ≡ db.revisions
      → restore_rows im sha {E = Error} snapshot (started im snapshot) rows
        ≡ ok (reached im sha snapshot project head sequence)
  loop-log stored snapshot rows fits e = rw e (
      restore_rows-Log im sha snapshot stored.log
        (Fits-OptionAgrees im sha stored.log snapshot fits))

  end-log :
      {project : Project im} {head : Option RevisionHash} {sequence : ℕ}
      (stored : Stored im sha db project head sequence) (snapshot : Option SnapshotRow)
      (expected : Option HeadRow) (progress : Progress im)
      → expected ≡ db.heads
      → progress ≡ reached im sha snapshot project head sequence
      → check_head im sha {E = Error} expected progress ≡ ok (project, head, sequence)
  end-log {project = project} {head = head} {sequence = sequence} stored snapshot expected progress
        e p =
      rw (e, stored.is_head, p)
        (check_head-log im sha snapshot project head sequence (Log-HeadFits im sha stored.log))

  still_unmatched : (b : Bool) → not b ≡ true → b ≢ true
  still_unmatched true e h = cc e
  still_unmatched false e h = cc h

  -- Where the newest snapshot is readable, `restore` gives the end of the log.
  pub restore-Reads :
      (project : Project im) (head : Option RevisionHash) (sequence : ℕ) (w : World)
      → Stored im sha db project head sequence
      → IsReadable im sha (last_snapshot db.snapshots)
      → Outside host laws c sound db w
      → Reads (λ a. a ≡ (project, head, sequence)) (restore host im sha c w)
  unfolding restore
  restore-Reads project head sequence w stored readable out =
      Post-bind _ _ w (read_query _ w out) λ expected w1 h1.
        Post-bind _ _ w1 (read_query _ w1 h1.1) λ snapshot w2 h2.
          let fits : Fits im sha stored.log snapshot =
            subst (Fits im sha stored.log) (sym h2.0)
              (last_snapshot-Fits im sha stored.log db.snapshots stored.all_agree) in
          Post-bind _ _ w2
            (check_snapshot-Reads stored.log snapshot w2 h2.1 fits
              (subst (IsReadable im sha) (sym h2.0) readable))
            λ _ w3 h3. Post-bind _ _ w3 (read_query _ w3 h3.1) λ rows w4 h4.
              Post-bind
                {P = λ p t.
                  (p ≡ reached im sha snapshot project head sequence)
                  × Outside host laws c sound db t}
                _ _ w4 (rw (loop-log stored snapshot rows fits h4.0) (post_ok (refl, h4.1)))
                λ progress w5 h5.
                  Post-bind {P = λ _ t. Outside host laws c sound db t} _ _ w5
                    (Post-fail_if (not progress.matched_snapshot) corrupt_store w5
                      (λ e. absurd (
                        still_unmatched progress.matched_snapshot e (
                          ap (λ p. p.matched_snapshot) h5.0
                          ∙ Fits-met im sha stored.log snapshot fits)))
                      (λ e. h5.1))
                    λ _ w6 h6.
                      Post-bind _ _ w6 (validate_receipts-Reads stored.log w6 h6) λ _ w7 h7.
                        rw (end-log stored snapshot expected progress h1.0 h5.0)
                          (post_ok (refl, h7.1))

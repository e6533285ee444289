-- ===== src/Store/Log/Snapshots.antt =====
-- The statements on the snapshots of crates/project-store/src/lib.rs on a database that holds a log.
use stitch_editor.Prelude.{
  ℕ, ◌+◌, ◌≤◌, ◌<◌, ◌≡◌, refl, ◌∙◌, subst, true, Option, some, List, [], ◌∷◌, ◌++◌, arith, inl, inr,
  Bool-cases, leb, ltb, ◌||◌, not,
}
use stitch_editor.Ids.{RevisionHash}
use stitch_editor.Crates.Im.{Im, Sha256}
use stitch_editor.Model.Project.{Project}
use stitch_editor.History.{revision_hash}
use stitch_editor.Store.Commit.{revision_row}
use stitch_editor.Store.Database.{
  Database, RevisionRow, ReceiptRow, SnapshotRow, insert_snapshot, place_snapshot, has_snapshot,
  snapshot_checks, has_revision, delete_snapshots, drop_below, max_sequence,
}
use stitch_editor.Store.Log.{Log, log_empty, log_next, Agrees, Matches}
use stitch_editor.Store.Log.Rows.{has_revision-last, Log-HeadFits}
use stitch_editor.Store.Log.Stored.{Stored, AllAgree}

module _ (im : Im) (sha : Sha256) where
  -- A snapshot of a later revision than the log has agrees with it.
  Agrees-above :
      {rows : List RevisionRow} {receipts : List ReceiptRow} {project : Project im}
      {head : Option RevisionHash} {sequence : ℕ} (snapshot : SnapshotRow)
      (log : Log im sha rows receipts project head sequence)
      → sequence < snapshot.sequence
      → Agrees im sha snapshot log
  unfolding Agrees
  Agrees-above snapshot log_empty h = tt
  Agrees-above snapshot (log_next request_id command next log _ _ _ _ _) h =
      (Agrees-above snapshot log (omega arith), λ same. absurd (omega (arith, h, same)))

  Agrees-head :
      {rows : List RevisionRow} {receipts : List ReceiptRow} {project : Project im}
      {head : Option RevisionHash} {sequence : ℕ} (snapshot : SnapshotRow) (hash : RevisionHash)
      (log : Log im sha rows receipts project head sequence)
      → head ≡ some hash
      → snapshot.sequence ≡ sequence
      → Matches im sha snapshot project hash
      → Agrees im sha snapshot log
  unfolding Agrees
  Agrees-head snapshot hash log_empty is_head at matches = tt
  Agrees-head snapshot hash (log_next {head = head} request_id command next log _ _ _ _ _) is_head
        at matches =
      (
        Agrees-above snapshot log (omega (arith, at)),
        λ same. subst (Matches im sha snapshot next) (cc is_head) matches,
      )

  -- The revision of the head is there.
  has_revision-head :
      {rows : List RevisionRow} {receipts : List ReceiptRow} {project : Project im}
      {head : Option RevisionHash} {sequence : ℕ} (hash : RevisionHash)
      (log : Log im sha rows receipts project head sequence)
      → head ≡ some hash
      → has_revision sequence hash rows ≡ true
  has_revision-head hash log_empty is_head = cc is_head
  has_revision-head hash
        (log_next {rows = rows} {head = head} {sequence = sequence} request_id command next log _ _
          _ _ _)
        is_head =
      let e : revision_hash sha head command ≡ hash = cc is_head in
      let row = revision_row (sequence + 1) (revision_hash sha head command) head command in
      subst (λ h. has_revision (sequence + 1) h (rows ++ row ∷ []) ≡ true) e
        (has_revision-last rows row)

  module _ {rows : List RevisionRow} {receipts : List ReceiptRow} {project : Project im}
      {head : Option RevisionHash} {sequence : ℕ}
      (log : Log im sha rows receipts project head sequence) where
    place-AllAgree :
        (row : SnapshotRow) (snapshots : List SnapshotRow)
        → (0 < row.sequence) × (row.sequence ≤ sequence) × Agrees im sha row log
        → AllAgree im sha snapshots log
        → AllAgree im sha (place_snapshot row snapshots) log
    unfolding place_snapshot
    place-AllAgree row [] fits all = (fits, tt)
    place-AllAgree row (first ∷ rest) fits all =
        elim (Bool-cases (leb first.sequence row.sequence)) [
          | inl below ↦ rw below (all.0, place-AllAgree row rest fits all.1)
          | inr above ↦ rw above (fits, all)
        ]

    pub drop-AllAgree :
        (least : ℕ) (snapshots : List SnapshotRow)
        → AllAgree im sha snapshots log
        → AllAgree im sha (drop_below least snapshots) log
    unfolding drop_below
    drop-AllAgree least [] all = tt
    drop-AllAgree least (first ∷ rest) all = elim (Bool-cases (ltb first.sequence least)) [
      | inl below ↦ rw below (drop-AllAgree least rest all.1)
      | inr above ↦ rw above (all.0, drop-AllAgree least rest all.1)
    ]

  -- The tables that a statement on the snapshots makes keep the log.
  pub record KeepsLog (db db' : Database) (project : Project im) (head : Option RevisionHash)
      (sequence : ℕ) : Type 0 where
    pub kept_stored : Stored im sha db' project head sequence
    pub kept_revisions : db'.revisions ≡ db.revisions
    pub kept_receipts : db'.receipts ≡ db.receipts
    pub kept_heads : db'.heads ≡ db.heads

  with_snapshots-KeepsLog :
      (db : Database) (snapshots : List SnapshotRow) (project : Project im)
      (head : Option RevisionHash) (sequence : ℕ) (stored : Stored im sha db project head sequence)
      → AllAgree im sha snapshots stored.log
      → KeepsLog db (record db { snapshots = snapshots }) project head sequence
  with_snapshots-KeepsLog db snapshots project head sequence stored all = record {
    kept_stored = record { log = stored.log; is_head = stored.is_head; all_agree = all };
    kept_revisions = refl;
    kept_receipts = refl;
    kept_heads = refl;
  }

  pub insert_snapshot-KeepsLog :
      (db : Database) (row : SnapshotRow) (project : Project im) (hash : RevisionHash)
      (sequence : ℕ)
      → Stored im sha db project (some hash) sequence
      → row.sequence ≡ sequence
      → row.revision_hash ≡ hash
      → Matches im sha row project hash
      → (db' : Database) × (insert_snapshot row db ≡ some db')
        × KeepsLog db db' project (some hash) sequence
  unfolding insert_snapshot
  insert_snapshot-KeepsLog db row project hash sequence stored at same matches =
      elim (Bool-cases
        (not (snapshot_checks row) || has_snapshot row.sequence row.revision_hash db.snapshots)) [
          | inl ignored ↦ (
            db,
            rw ignored refl,
            with_snapshots-KeepsLog db db.snapshots project (some hash) sequence stored
                stored.all_agree,
          )
          | inr fresh ↦
              let there : has_revision row.sequence row.revision_hash db.revisions ≡ true =
                rw (at, same) (has_revision-head hash stored.log refl) in
              (
                record db { snapshots = place_snapshot row db.snapshots },
                rw (fresh, there) refl,
                with_snapshots-KeepsLog db (place_snapshot row db.snapshots) project (some hash)
                    sequence stored
                    (place-AllAgree stored.log row db.snapshots
                      (
                        omega (arith, at, (Log-HeadFits im sha stored.log).0),
                        omega (arith, at),
                        Agrees-head row hash stored.log refl at matches,
                      )
                      stored.all_agree),
              )
        ]

  pub delete_snapshots-KeepsLog :
      (db : Database) (project : Project im) (head : Option RevisionHash) (sequence : ℕ)
      → Stored im sha db project head sequence
      → (db' : Database) × (delete_snapshots db ≡ some db') × KeepsLog db db' project head sequence
  unfolding delete_snapshots
  delete_snapshots-KeepsLog db project head sequence stored = (
    record db { snapshots = drop_below (max_sequence db.snapshots) db.snapshots },
    refl,
    with_snapshots-KeepsLog db _ project head sequence stored
        (drop-AllAgree stored.log (max_sequence db.snapshots) db.snapshots stored.all_agree),
  )

  pub KeepsLog-trans :
      (db db' db'' : Database) (project : Project im) (head : Option RevisionHash) (sequence : ℕ)
      → KeepsLog db db' project head sequence
      → KeepsLog db' db'' project head sequence
      → KeepsLog db db'' project head sequence
  KeepsLog-trans db db' db'' project head sequence first second = record {
    kept_stored = second.kept_stored;
    kept_revisions = second.kept_revisions ∙ first.kept_revisions;
    kept_receipts = second.kept_receipts ∙ first.kept_receipts;
    kept_heads = second.kept_heads ∙ first.kept_heads;
  }

  pub KeepsLog-refl :
      (db : Database) (project : Project im) (head : Option RevisionHash) (sequence : ℕ)
      → Stored im sha db project head sequence
      → KeepsLog db db project head sequence
  KeepsLog-refl db project head sequence stored =
      with_snapshots-KeepsLog db db.snapshots project head sequence stored stored.all_agree

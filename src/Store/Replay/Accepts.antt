-- ===== src/Store/Replay/Accepts.antt =====
-- The loop of `restore` of crates/project-store/src/lib.rs over the revisions of a log.
use stitch_editor.Prelude.{
  ℕ, ◌+◌, ◌<◌, ◌≡◌, refl, ◌∙◌, ap, subst, Bool, true, Option, none, some, List, [], ◌∷◌, ◌++◌,
  arith, length, inl, inr, Bool-cases, leb, ◌==◌,
}
use stitch_editor.Prelude.Result.{ok, ◌>>=◌, Result-cases}
use stitch_editor.Ids.{RevisionHash}
use stitch_editor.Wire.Bytes.{Bytes, beq_refl}
use stitch_editor.Crates.Im.{Im, Sha256}
use stitch_editor.Model.Command.{Command, IsCommand}
use stitch_editor.Model.Command.RoundTrip.{from_canonical_bytes-canonical_bytes}
use stitch_editor.Model.Project.{Project, default, reduce}
use stitch_editor.Model.Project.Encode.{project_bytes, semantic_digest}
use stitch_editor.History.{revision_hash}
use stitch_editor.Store.{RequestId, i64_limit}
use stitch_editor.Store.Database.{RevisionRow, ReceiptRow, SnapshotRow, find_receipt}
use stitch_editor.Store.Commit.{hash_from_bytes, revision_row}
use stitch_editor.Store.Replay.{
  Progress, started, optional_hash, same_hash, compare_snapshot, match_snapshot, restore_row,
  restore_rows,
}
use stitch_editor.Store.Log.{Log, log_empty, log_next, Agrees, Matches}
use stitch_editor.Store.Log.Rows.{HeadFits, Log-HeadFits, length-revision_hash}

pub hash_from_bytes-ok :
    {E : Type 0} (bytes : Bytes) → length bytes ≡ 32 → hash_from_bytes {E = E} bytes ≡ ok bytes
unfolding hash_from_bytes
hash_from_bytes-ok bytes h = ground arith

optional_hash-ok :
    {E : Type 0} (head : Option RevisionHash) (sequence : ℕ)
    → HeadFits head sequence
    → optional_hash {E = E} head ≡ ok head
optional_hash-ok none sequence h = refl
optional_hash-ok (some hash) sequence h = rw (hash_from_bytes-ok hash h.1, ◌>>=◌) refl

pub same_hash_refl : (head : Option RevisionHash) → same_hash head head ≡ true
unfolding same_hash
same_hash_refl none = refl
same_hash_refl (some hash) = beq_refl hash

-- Whether the loop has met the snapshot.
abbrev pub met : Option SnapshotRow → ℕ → Bool
met none sequence = true
met (some snapshot) sequence = leb snapshot.sequence sequence

module _ (im : Im) (sha : Sha256) where
  abbrev pub reached : Option SnapshotRow → Project im → Option RevisionHash → ℕ → Progress im
  reached snapshot project head sequence = record {
    project = project;
    head = head;
    sequence = sequence;
    matched_snapshot = met snapshot sequence;
  }

  abbrev pub OptionAgrees :
      {rows : List RevisionRow} {receipts : List ReceiptRow} {project : Project im}
      {head : Option RevisionHash} {sequence : ℕ}
      → Option SnapshotRow
      → Log im sha rows receipts project head sequence
      → Type 0
  OptionAgrees none log = Unit
  OptionAgrees (some snapshot) log = (0 < snapshot.sequence) × Agrees im sha snapshot log

module _ (im : Im) (sha : Sha256) where
  agrees_before :
      {rows : List RevisionRow} {receipts : List ReceiptRow} {project : Project im}
      {head : Option RevisionHash} {sequence : ℕ} (snapshot : Option SnapshotRow)
      (request_id : RequestId) (command : Command) (next : Project im)
      (log : Log im sha rows receipts project head sequence) (a : IsCommand command)
      (b : length request_id ≡ 16) (c : find_receipt request_id receipts ≡ none)
      (d : sequence + 1 < i64_limit) (e : reduce im project command ≡ ok next)
      → OptionAgrees im sha snapshot (log_next request_id command next log a b c d e)
      → OptionAgrees im sha snapshot log
        × ((row : SnapshotRow)
            → snapshot ≡ some row
            → row.sequence ≡ sequence + 1
            → Matches im sha row next (revision_hash sha head command))
  unfolding Agrees
  agrees_before none request_id command next log a b c d e agrees = (tt, λ row same at. cc same)
  agrees_before {head = head} {sequence = sequence} (some snapshot) request_id command next log a b
        c d e agrees =
      (
        (agrees.0, agrees.1.0),
        λ row same at.
            let e : snapshot ≡ row = cc same in
            subst
              (λ s.
                s.sequence ≡ sequence + 1 → Matches im sha s next (revision_hash sha head command))
              e agrees.1.1 at,
      )

module _ (im : Im) (sha : Sha256) {E : Type 0} where
  compare_snapshot-ok :
      (snapshot : SnapshotRow) (project : Project im) (hash : RevisionHash) (sequence : ℕ)
      (matched : Bool)
      → Matches im sha snapshot project hash
      → length hash ≡ 32
      → compare_snapshot im sha {E = E} snapshot (record {
        project = project;
        head = some hash;
        sequence = sequence;
        matched_snapshot = matched;
      })
        ≡ ok (record {
          project = project;
          head = some hash;
          sequence = sequence;
          matched_snapshot = true;
        })
  unfolding compare_snapshot same_hash
  compare_snapshot-ok snapshot project hash sequence matched m sized =
      rw (m.same_hash, m.same_project, m.same_digest, hash_from_bytes-ok hash sized, ◌>>=◌)
        (rw
          (
            beq_refl hash,
            beq_refl (project_bytes im project),
            beq_refl (semantic_digest im sha project),
          )
          refl)

  match_snapshot-next :
      (snapshot : Option SnapshotRow) (project : Project im) (hash : RevisionHash) (sequence : ℕ)
      → length hash ≡ 32
      → ((row : SnapshotRow)
          → snapshot ≡ some row
          → row.sequence ≡ sequence + 1
          → Matches im sha row project hash)
      → match_snapshot im sha {E = E} snapshot (record {
        project = project;
        head = some hash;
        sequence = sequence + 1;
        matched_snapshot = met snapshot sequence;
      })
        ≡ ok (reached im sha snapshot project (some hash) (sequence + 1))
  unfolding match_snapshot
  match_snapshot-next none project hash sequence sized agrees = refl
  match_snapshot-next (some row) project hash sequence sized agrees =
      elim (Bool-cases (sequence + 1 == row.sequence)) [
        | inl here ↦
            let e : row.sequence ≡ sequence + 1 = ground arith in
            rw here (
              compare_snapshot-ok row project hash (sequence + 1) _ (agrees row refl e) sized
              ∙ ap
                  (λ b. ok (record {
                    project = project;
                    head = some hash;
                    sequence = sequence + 1;
                    matched_snapshot = b;
                  }))
                  (ground arith))
        | inr elsewhere ↦ rw elsewhere (
            ap
              (λ b. ok (record {
                project = project;
                head = some hash;
                sequence = sequence + 1;
                matched_snapshot = b;
              }))
              (ground arith))
      ]

  -- The loop goes on over the revision of one more commit.
  restore_row-next :
      (snapshot : Option SnapshotRow) (project next : Project im) (head : Option RevisionHash)
      (sequence : ℕ) (command : Command)
      → HeadFits head sequence
      → IsCommand command
      → reduce im project command ≡ ok next
      → ((row : SnapshotRow)
          → snapshot ≡ some row
          → row.sequence ≡ sequence + 1
          → Matches im sha row next (revision_hash sha head command))
      → restore_row im sha {E = E} snapshot
          (reached im sha snapshot project head sequence)
          (revision_row (sequence + 1) (revision_hash sha head command) head command)
        ≡ ok (reached im sha snapshot next (some (revision_hash sha head command)) (sequence + 1))
  unfolding restore_row
  restore_row-next snapshot project next head sequence command fits valid reduced agrees =
      let here : (sequence + 1 == sequence + 1) ≡ true = ground arith in
      rw
        (
          here,
          ◌>>=◌,
          from_canonical_bytes-canonical_bytes command valid,
          optional_hash-ok head sequence fits,
          same_hash_refl head,
          hash_from_bytes-ok (revision_hash sha head command)
              (length-revision_hash sha head command),
          beq_refl (revision_hash sha head command),
          reduced,
        )
        (match_snapshot-next snapshot next (revision_hash sha head command) sequence
          (length-revision_hash sha head command) agrees)

  restore_rows-append :
      (snapshot : Option SnapshotRow) (progress : Progress im) (rows : List RevisionRow)
      (row : RevisionRow)
      → restore_rows im sha {E = E} snapshot progress (rows ++ row ∷ []) ≡ (
          restore_rows im sha snapshot progress rows >>= λ next.
          restore_row im sha snapshot next row)
  unfolding restore_rows
  restore_rows-append snapshot progress [] row =
      elim (Result-cases (restore_row im sha {E = E} snapshot progress row)) [
        | inl (next, e) ↦ rw (e, ◌>>=◌) refl
        | inr (error, e) ↦ rw (e, ◌>>=◌) refl
      ]
  restore_rows-append snapshot progress (first ∷ rows) row =
      elim (Result-cases (restore_row im sha {E = E} snapshot progress first)) [
        | inl (next, e) ↦ rw (e, ◌>>=◌) (restore_rows-append snapshot next rows row)
        | inr (error, e) ↦ rw (e, ◌>>=◌) refl
      ]

  -- Over the rows of a log the loop ends with its project, its hash and its number.
  pub restore_rows-Log :
      {rows : List RevisionRow} {receipts : List ReceiptRow} {project : Project im}
      {head : Option RevisionHash} {sequence : ℕ} (snapshot : Option SnapshotRow)
      (log : Log im sha rows receipts project head sequence)
      → OptionAgrees im sha snapshot log
      → restore_rows im sha {E = E} snapshot (started im snapshot) rows
        ≡ ok (reached im sha snapshot project head sequence)
  unfolding restore_rows
  restore_rows-Log none log_empty agrees = refl
  restore_rows-Log (some snapshot) log_empty agrees =
      ap
        (λ b. ok (record { project = default im; head = none; sequence = 0; matched_snapshot = b }))
        (ground arith)
  restore_rows-Log snapshot
        (log_next {rows = rows} {project = project} {head = head} {sequence = sequence} request_id
          command next log a b c d e)
        agrees =
      let (before, now) =
        agrees_before im sha snapshot request_id command next log a b c d e agrees in
      restore_rows-append snapshot (started im snapshot) rows _
      ∙ rw (restore_rows-Log snapshot log before, ◌>>=◌)
          (restore_row-next snapshot project next head sequence command (Log-HeadFits im sha log) a
            e now)

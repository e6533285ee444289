-- ===== src/Store/Log/Receipts.antt =====
-- The queries of `restore` of crates/project-store/src/lib.rs on the rows of a log.
use stitch_editor.Prelude.{
  ℕ, ◌+◌, ◌≤◌, ◌<◌, ◌≡◌, refl, true, false, ◌&&◌, Option, some, List, [], ◌∷◌, ◌++◌, arith, length,
  length-append, ◌==◌, inl, inr, Bool-cases,
}
use stitch_editor.Ids.{RevisionHash}
use stitch_editor.Wire.Bytes.{Bytes, beq, beq_refl}
use stitch_editor.Crates.Im.{Im, Sha256}
use stitch_editor.Model.Project.{Project}
use stitch_editor.History.{revision_hash}
use stitch_editor.Store.Database.{
  RevisionRow, ReceiptRow, SnapshotRow, find_revision, is_mismatch, any, has_revision,
}
use stitch_editor.Store.Commit.{revision_row}
use stitch_editor.Store.Log.{Log, log_empty, log_next, Agrees}
use stitch_editor.Store.Log.Rows.{
  AllBelow, Log-AllBelow, any-append, has_revision-last, length-revision_hash,
}

find_revision-append :
    (sequence : ℕ) (hash : Bytes) (rows more : List RevisionRow) (row : RevisionRow)
    → find_revision sequence hash rows ≡ some row
    → find_revision sequence hash (rows ++ more) ≡ some row
unfolding find_revision
find_revision-append sequence hash [] more row h = cc h
find_revision-append sequence hash (first ∷ rows) more row h =
    ground (arith, find_revision-append sequence hash rows more row)

find_revision-last :
    (n : ℕ) (rows : List RevisionRow) (row : RevisionRow)
    → AllBelow n rows
    → n < row.sequence
    → find_revision row.sequence row.revision_hash (rows ++ row ∷ []) ≡ some row
unfolding find_revision
find_revision-last n [] row a h = ground (arith, beq_refl row.revision_hash)
find_revision-last n (first ∷ rows) row a h = ground (arith, find_revision-last n rows row a.1 h)

-- The receipt refers to a revision of its command.
abbrev Found : List RevisionRow → ReceiptRow → Type 0
Found rows receipt =
    (row : RevisionRow) × (find_revision receipt.sequence receipt.revision_hash rows ≡ some row)
    × (receipt.command ≡ row.command)

abbrev AllFound : List RevisionRow → List ReceiptRow → Type 0
AllFound rows [] = Unit
AllFound rows (receipt ∷ rest) = Found rows receipt × AllFound rows rest

AllFound-append :
    (rows more : List RevisionRow) (receipts : List ReceiptRow)
    → AllFound rows receipts
    → AllFound (rows ++ more) receipts
AllFound-append rows more [] h = tt
AllFound-append rows more (receipt ∷ rest) h = (
  (h.0.0, find_revision-append receipt.sequence receipt.revision_hash rows more h.0.0 h.0.1, h.0.2),
  AllFound-append rows more rest h.1,
)

AllFound-mismatch :
    (rows : List RevisionRow) (receipts : List ReceiptRow)
    → AllFound rows receipts
    → any (is_mismatch rows) receipts ≡ false
unfolding is_mismatch
AllFound-mismatch rows [] h = refl
AllFound-mismatch rows (receipt ∷ rest) h =
    rw (is_mismatch, h.0.1) (rw (h.0.2, beq_refl h.0.0.command) (AllFound-mismatch rows rest h.1))

has_revision-append :
    (sequence : ℕ) (hash : Bytes) (rows more : List RevisionRow)
    → has_revision sequence hash rows ≡ true
    → has_revision sequence hash (rows ++ more) ≡ true
unfolding has_revision
has_revision-append sequence hash rows more h =
    any-append (λ row. (row.sequence == sequence) && beq row.revision_hash hash) rows more h

module _ (im : Im) (sha : Sha256) where
  Log-AllFound :
      {rows : List RevisionRow} {receipts : List ReceiptRow} {project : Project im}
      {head : Option RevisionHash} {sequence : ℕ}
      → Log im sha rows receipts project head sequence
      → AllFound rows receipts
  Log-AllFound log_empty = tt
  Log-AllFound
        (log_next {rows = rows} {receipts = receipts} {head = head} {sequence = sequence} request_id
          command next log _ _ _ _ _) =
      let row = revision_row (sequence + 1) (revision_hash sha head command) head command in
      (
        (row, find_revision-last sequence rows row (Log-AllBelow im sha log) (omega arith), refl),
        AllFound-append rows (row ∷ []) receipts (Log-AllFound log),
      )

  pub Log-matched :
      {rows : List RevisionRow} {receipts : List ReceiptRow} {project : Project im}
      {head : Option RevisionHash} {sequence : ℕ}
      → Log im sha rows receipts project head sequence
      → any (is_mismatch rows) receipts ≡ false
  Log-matched {rows = rows} {receipts = receipts} log =
      AllFound-mismatch rows receipts (Log-AllFound log)

  pub Log-lengths :
      {rows : List RevisionRow} {receipts : List ReceiptRow} {project : Project im}
      {head : Option RevisionHash} {sequence : ℕ}
      → Log im sha rows receipts project head sequence
      → length receipts ≡ length rows
  Log-lengths log_empty = refl
  Log-lengths (log_next {rows = rows} request_id command next log _ _ _ _ _) =
      omega (arith, Log-lengths log, length-append rows (_ ∷ []))

  -- A snapshot that agrees with the log is of one of its revisions.
  pub Agrees-found :
      {rows : List RevisionRow} {receipts : List ReceiptRow} {project : Project im}
      {head : Option RevisionHash} {sequence : ℕ} (snapshot : SnapshotRow)
      (log : Log im sha rows receipts project head sequence)
      → 0 < snapshot.sequence
      → snapshot.sequence ≤ sequence
      → Agrees im sha snapshot log
      → (length snapshot.revision_hash ≡ 32)
        × (has_revision snapshot.sequence snapshot.revision_hash rows ≡ true)
  unfolding Agrees
  Agrees-found snapshot log_empty positive below agrees = absurd (omega arith)
  Agrees-found snapshot
        (log_next {rows = rows} {head = head} {sequence = sequence} request_id command next log _ _
          _ _ _)
        positive below agrees =
      elim (Bool-cases (snapshot.sequence == sequence + 1)) [
        | inl here ↦
            let e : snapshot.sequence ≡ sequence + 1 = ground arith in
            let row = revision_row (sequence + 1) (revision_hash sha head command) head command in
            rw (e, (agrees.1 e).same_hash)
              (length-revision_hash sha head command, has_revision-last rows row)
        | inr earlier ↦
            let (sized, there) = Agrees-found snapshot log positive (ground arith) agrees.0 in
            (sized, has_revision-append snapshot.sequence snapshot.revision_hash rows _ there)
      ]

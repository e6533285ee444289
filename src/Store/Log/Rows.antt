-- ===== src/Store/Log/Rows.antt =====
-- The rows of a log in the tables of crates/project-store/src/lib.rs.
use stitch_editor.Prelude.{
  ℕ, ◌+◌, ◌≤◌, ◌<◌, ◌≡◌, refl, Bool, true, Option, none, some, List, [], ◌∷◌, ◌++◌, arith, length,
  ltb, ◌==◌, ◌&&◌,
}
use stitch_editor.Ids.{RevisionHash}
use stitch_editor.Wire.Bytes.{beq, beq_refl}
use stitch_editor.Crates.Im.{Im, Sha256}
use stitch_editor.Model.Command.{Command, canonical_bytes}
use stitch_editor.Model.Project.{Project}
use stitch_editor.History.{revision_hash}
use stitch_editor.Store.Database.{
  RevisionRow, ReceiptRow, insert_row, has_revision, any, revision_checks,
}
use stitch_editor.Store.Commit.{revision_row}
use stitch_editor.Store.Log.{Log, log_empty, log_next}

-- There is a head where there are revisions, and it has the length of a hash.
abbrev pub HeadFits : Option RevisionHash → ℕ → Type 0
HeadFits none sequence = sequence ≡ 0
HeadFits (some hash) sequence = (0 < sequence) × (length hash ≡ 32)

abbrev pub AllBelow : ℕ → List RevisionRow → Type 0
AllBelow sequence [] = Unit
AllBelow sequence (row ∷ rest) = (row.sequence ≤ sequence) × AllBelow sequence rest

pub AllBelow-append :
    (n m : ℕ) (rows : List RevisionRow) (row : RevisionRow)
    → n ≤ m
    → row.sequence ≤ m
    → AllBelow n rows
    → AllBelow m (rows ++ row ∷ [])
AllBelow-append n m [] row h k a = (k, tt)
AllBelow-append n m (first ∷ rows) row h k a =
    (omega (arith, a.0), AllBelow-append n m rows row h k a.1)

-- A row above all others goes to the end.
pub insert_row-last :
    (n : ℕ) (rows : List RevisionRow) (row : RevisionRow)
    → AllBelow n rows
    → n < row.sequence
    → insert_row row rows ≡ some (rows ++ row ∷ [])
unfolding insert_row
insert_row-last n [] row a h = refl
insert_row-last n (first ∷ rows) row a h = ground (arith, insert_row-last n rows row a.1 h)

module _ {A : Type 0} (test : A → Bool) where
  pub any-last : (xs : List A) (a : A) → test a ≡ true → any test (xs ++ a ∷ []) ≡ true
  any-last [] a h = ground arith
  any-last (x ∷ xs) a h = ground (arith, any-last xs a h)

  pub any-append : (xs ys : List A) → any test xs ≡ true → any test (xs ++ ys) ≡ true
  any-append [] ys h = cc h
  any-append (x ∷ xs) ys h = ground (arith, any-append xs ys)

-- The revision that was added last is there.
pub has_revision-last :
    (rows : List RevisionRow) (row : RevisionRow)
    → has_revision row.sequence row.revision_hash (rows ++ row ∷ []) ≡ true
unfolding has_revision
has_revision-last rows row =
    any-last (λ r. (r.sequence == row.sequence) && beq r.revision_hash row.revision_hash) rows row
      (ground (arith, beq_refl row.revision_hash))

pub canonical_bytes_nonempty : (command : Command) → ltb 0 (length (canonical_bytes command)) ≡ true
unfolding canonical_bytes
canonical_bytes_nonempty command = ground arith

pub length-revision_hash :
    (sha : Sha256) (head : Option RevisionHash) (command : Command)
    → length (revision_hash sha head command) ≡ 32
unfolding revision_hash
length-revision_hash sha head command = (sha.digest-IsArray _).0

module _ (im : Im) (sha : Sha256) where
  pub Log-HeadFits :
      {rows : List RevisionRow} {receipts : List ReceiptRow} {project : Project im}
      {head : Option RevisionHash} {sequence : ℕ}
      → Log im sha rows receipts project head sequence
      → HeadFits head sequence
  Log-HeadFits log_empty = refl
  Log-HeadFits (log_next {head = head} request_id command next log _ _ _ _ _) =
      (omega arith, length-revision_hash sha head command)

  pub Log-AllBelow :
      {rows : List RevisionRow} {receipts : List ReceiptRow} {project : Project im}
      {head : Option RevisionHash} {sequence : ℕ}
      → Log im sha rows receipts project head sequence
      → AllBelow sequence rows
  Log-AllBelow log_empty = tt
  Log-AllBelow
        (log_next {rows = rows} {sequence = sequence} request_id command next log _ _ _ _ _) =
      AllBelow-append sequence (sequence + 1) rows _ (omega arith) (omega arith) (Log-AllBelow log)

  -- The next revision keeps the constraints of its table.
  pub revision_row-checks :
      (head : Option RevisionHash) (sequence : ℕ) (command : Command)
      → HeadFits head sequence
      → revision_checks (revision_row (sequence + 1) (revision_hash sha head command) head command)
        ≡ true
  unfolding revision_checks
  revision_row-checks none sequence command h =
      ground (arith, length-revision_hash sha none command, canonical_bytes_nonempty command)
  revision_row-checks (some hash) sequence command h =
      ground (arith, length-revision_hash sha (some hash) command, canonical_bytes_nonempty command)

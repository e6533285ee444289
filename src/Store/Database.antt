-- ===== src/Store/Database.antt =====
-- The tables that the statements of crates/project-store/src/lib.rs create, and what those
-- statements ask of them and make of them. A table lists its rows; one with an integer key lists
-- them in the order of that key. A statement that breaks a constraint gives none.
use stitch_editor.Prelude.{
  ℕ, Bool, true, false, ◌&&◌, ◌||◌, not, Option, none, some, List, [], ◌∷◌, if◌then◌else◌, ltb, leb,
  ◌==◌, length,
}
use stitch_editor.Wire.Bytes.{Bytes, beq}
use stitch_editor.Store.{RequestId}

pub record RevisionRow : Type 0 where
  pub sequence : ℕ
  pub revision_hash : Bytes
  pub parent_hash : Option Bytes
  pub command : Bytes

pub record ReceiptRow : Type 0 where
  pub request_id : Bytes
  pub revision_hash : Bytes
  pub sequence : ℕ
  pub command : Bytes

-- The row of `heads` whose name is 'main'; the table takes no other.
pub record HeadRow : Type 0 where
  pub sequence : ℕ
  pub revision_hash : Bytes

pub record SnapshotRow : Type 0 where
  pub sequence : ℕ
  pub revision_hash : Bytes
  pub project : Bytes
  pub project_digest : Bytes

-- A row of `sqlite_master` whose name is not one of SQLite's own; they are listed by their names.
pub record SchemaRow : Type 0 where
  pub kind : Bytes
  pub name : Bytes
  pub sql : Option Bytes

pub record Database : Type 0 where
  pub application_id : ℕ
  pub user_version : ℕ
  pub schema : List SchemaRow
  pub metadata : List (Bytes × Bytes)
  pub revisions : List RevisionRow
  pub receipts : List ReceiptRow
  pub heads : Option HeadRow
  pub snapshots : List SnapshotRow

abbrev pub any : {A : Type 0} → (A → Bool) → List A → Bool
any test [] = false
any test (a ∷ rest) = test a || any test rest

-- `parent_hash IS NULL OR length(parent_hash)=32`
abbrev pub parent_fits : Option Bytes → Bool
parent_fits none = true
parent_fits (some parent) = length parent == 32

-- `(sequence=1 AND parent_hash IS NULL) OR (sequence>1 AND parent_hash IS NOT NULL)`
abbrev pub parent_matches : ℕ → Option Bytes → Bool
parent_matches sequence none = sequence == 1
parent_matches sequence (some parent) = ltb 1 sequence

-- The CHECK constraints of `CREATE_REVISIONS`.
unfoldable pub revision_checks : RevisionRow → Bool
revision_checks row =
    ltb 0 row.sequence
    && (length row.revision_hash == 32)
    && parent_fits row.parent_hash
    && ltb 0 (length row.command)
    && parent_matches row.sequence row.parent_hash

-- A row at its place by the primary key, which must be new.
unfoldable pub insert_row : RevisionRow → List RevisionRow → Option (List RevisionRow)
insert_row row [] = some (row ∷ [])
insert_row row (first ∷ rest) =
    let after = insert_row row rest in
    if ltb row.sequence first.sequence
    then some (row ∷ first ∷ rest)
    else if row.sequence == first.sequence
    then none
    else elim after [ some rows ↦ some (first ∷ rows) | none ↦ none ]

-- `INSERT INTO revisions`
unfoldable pub insert_revision : RevisionRow → Database → Option Database
insert_revision row db =
    let rows = insert_row row db.revisions in
    if revision_checks row
    then elim rows [ some revisions ↦ some (record db { revisions = revisions }) | none ↦ none ]
    else none

-- `FOREIGN KEY(sequence,revision_hash) REFERENCES revisions(sequence,revision_hash)`, and
-- `SELECT 1 FROM revisions WHERE sequence=?1 AND revision_hash=?2`
unfoldable pub has_revision : ℕ → Bytes → List RevisionRow → Bool
has_revision sequence hash = any (λ row. (row.sequence == sequence) && beq row.revision_hash hash)

-- `SELECT revision_hash,sequence,command FROM receipts WHERE request_id=?1`
unfoldable pub find_receipt : RequestId → List ReceiptRow → Option ReceiptRow
find_receipt request_id [] = none
find_receipt request_id (row ∷ rest) =
    if beq row.request_id request_id then some row else find_receipt request_id rest

-- The CHECK and key constraints of `CREATE_RECEIPTS`.
unfoldable pub receipt_checks : ReceiptRow → Database → Bool
receipt_checks row db =
    (length row.request_id == 16)
    && (length row.revision_hash == 32)
    && ltb 0 row.sequence
    && ltb 0 (length row.command)
    && elim (find_receipt row.request_id db.receipts) [ none ↦ true | some other ↦ false ]
    && has_revision row.sequence row.revision_hash db.revisions

-- `INSERT INTO receipts`
unfoldable pub insert_receipt : ReceiptRow → Database → Option Database
insert_receipt row db =
    if receipt_checks row db then some (record db { receipts = row ∷ db.receipts }) else none

-- `INSERT INTO heads … ON CONFLICT(name) DO UPDATE`
unfoldable pub upsert_head : HeadRow → Database → Option Database
upsert_head row db =
    if ltb 0 row.sequence
      && (length row.revision_hash == 32)
      && has_revision row.sequence row.revision_hash db.revisions
    then some (record db { heads = some row })
    else none

-- `SELECT 1 FROM snapshots WHERE sequence=?1 AND revision_hash=?2`
unfoldable pub has_snapshot : ℕ → Bytes → List SnapshotRow → Bool
has_snapshot sequence hash = any (λ row. (row.sequence == sequence) && beq row.revision_hash hash)

unfoldable pub snapshot_checks : SnapshotRow → Bool
snapshot_checks row =
    ltb 0 row.sequence
    && (length row.revision_hash == 32)
    && ltb 0 (length row.project)
    && (length row.project_digest == 32)

-- A row at its place by the sequence.
unfoldable pub place_snapshot : SnapshotRow → List SnapshotRow → List SnapshotRow
place_snapshot row [] = row ∷ []
place_snapshot row (first ∷ rest) =
    if leb first.sequence row.sequence then first ∷ place_snapshot row rest else row ∷ first ∷ rest

-- `INSERT OR IGNORE INTO snapshots`: a row that breaks a CHECK or the key is left out, and one
-- that refers to no revision is an error.
unfoldable pub insert_snapshot : SnapshotRow → Database → Option Database
insert_snapshot row db =
    if not (snapshot_checks row) || has_snapshot row.sequence row.revision_hash db.snapshots
    then some db
    else if has_revision row.sequence row.revision_hash db.revisions
    then some (record db { snapshots = place_snapshot row db.snapshots })
    else none

-- `ORDER BY sequence DESC LIMIT 1`
unfoldable pub last_snapshot : List SnapshotRow → Option SnapshotRow
last_snapshot [] = none
last_snapshot (row ∷ rest) = elim (last_snapshot rest) [ none ↦ some row | some last ↦ some last ]

-- `SELECT max(sequence) FROM snapshots`, 0 where there is none.
unfoldable pub max_sequence : List SnapshotRow → ℕ
max_sequence [] = 0
max_sequence (row ∷ rest) =
    let most = max_sequence rest in if leb row.sequence most then most else row.sequence

unfoldable pub drop_below : ℕ → List SnapshotRow → List SnapshotRow
drop_below sequence [] = []
drop_below sequence (row ∷ rest) =
    if ltb row.sequence sequence then drop_below sequence rest else row ∷ drop_below sequence rest

-- `DELETE FROM snapshots WHERE sequence < (SELECT max(sequence) FROM snapshots)`
unfoldable pub delete_snapshots : Database → Option Database
delete_snapshots db =
    some (record db { snapshots = drop_below (max_sequence db.snapshots) db.snapshots })

-- The command of the revision that a receipt refers to.
unfoldable pub find_revision : ℕ → Bytes → List RevisionRow → Option RevisionRow
find_revision sequence hash [] = none
find_revision sequence hash (row ∷ rest) =
    if (row.sequence == sequence) && beq row.revision_hash hash
    then some row
    else find_revision sequence hash rest

-- A receipt of the LEFT JOIN that has no revision, or one of another command.
unfoldable pub is_mismatch : List RevisionRow → ReceiptRow → Bool
is_mismatch revisions row = elim (find_revision row.sequence row.revision_hash revisions) [
  | none ↦ true
  | some revision ↦ not (beq row.command revision.command)
]

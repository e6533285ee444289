-- ===== src/Store/Open.antt =====
-- `open_state`, `initialize_store`, `configure_connection`, `validate_schema` and
-- `verify_runtime` of crates/project-store/src/lib.rs.
pub mod Calls
pub mod Initialize
pub mod Sound
pub mod Reopen
mod Tests
use stitch_editor.Prelude.{
  ℕ, ◌+◌, Bool, true, false, not, ◌||◌, ◌&&◌, Option, none, some, List, [], ◌∷◌, leb, ◌==◌,
  if◌then◌else◌, length,
}
use stitch_editor.Prelude.Int.{pos, ◌==ℤ◌}
use stitch_editor.Prelude.Text.{codes}
use stitch_editor.Wire.Bytes.{Bytes, beq}
use stitch_editor.Crates.Im.{Im, Sha256}
use stitch_editor.Store.{corrupt_store, runtime_mismatch}
use stitch_editor.Store.Database.{Database, SchemaRow, any}
use stitch_editor.Store.Host.{Host, connection_settings}
use stitch_editor.Store.Monad.{return, throw, fail_if, ◌>>=◌, ◌>>◌, transaction}
use stitch_editor.Store.Maintenance.{State, Db, sql_call}
use stitch_editor.Store.Restore.{restore}

abbrev pub sqlite_version : Bytes
sqlite_version = codes "3.53.2"

abbrev pub create_revisions : Bytes
create_revisions =
    codes
      "CREATE TABLE revisions (sequence INTEGER PRIMARY KEY NOT NULL CHECK(sequence>0), revision_hash BLOB NOT NULL CHECK(length(revision_hash)=32), parent_hash BLOB CHECK(parent_hash IS NULL OR length(parent_hash)=32), command BLOB NOT NULL CHECK(length(command)>0), UNIQUE(sequence,revision_hash), CHECK((sequence=1 AND parent_hash IS NULL) OR (sequence>1 AND parent_hash IS NOT NULL))) STRICT"

abbrev pub create_receipts : Bytes
create_receipts =
    codes
      "CREATE TABLE receipts (request_id BLOB PRIMARY KEY NOT NULL CHECK(length(request_id)=16), revision_hash BLOB NOT NULL CHECK(length(revision_hash)=32), sequence INTEGER NOT NULL CHECK(sequence>0), command BLOB NOT NULL CHECK(length(command)>0), FOREIGN KEY(sequence,revision_hash) REFERENCES revisions(sequence,revision_hash)) STRICT"

abbrev pub create_heads : Bytes
create_heads =
    codes
      "CREATE TABLE heads (name TEXT PRIMARY KEY NOT NULL CHECK(name='main'), sequence INTEGER NOT NULL CHECK(sequence>0), revision_hash BLOB NOT NULL CHECK(length(revision_hash)=32), FOREIGN KEY(sequence,revision_hash) REFERENCES revisions(sequence,revision_hash)) STRICT"

abbrev pub create_snapshots : Bytes
create_snapshots =
    codes
      "CREATE TABLE snapshots (sequence INTEGER NOT NULL CHECK(sequence>0), revision_hash BLOB NOT NULL CHECK(length(revision_hash)=32), project BLOB NOT NULL CHECK(length(project)>0), project_digest BLOB NOT NULL CHECK(length(project_digest)=32), PRIMARY KEY(sequence,revision_hash), FOREIGN KEY(sequence,revision_hash) REFERENCES revisions(sequence,revision_hash)) STRICT"

abbrev pub create_metadata : Bytes
create_metadata =
    codes "CREATE TABLE metadata (key TEXT PRIMARY KEY NOT NULL, value TEXT NOT NULL) STRICT"

abbrev pub sqlite_source_id : Bytes
sqlite_source_id =
    codes "2026-06-03 19:12:13 d6e03d8c777cfa2d35e3b60d8ec3e0187f3e9f99d8e2ee9cac695fd6fcdf1a24"

abbrev pub store_schema_version : Bytes
store_schema_version = codes "1"

abbrev pub application_id : ℕ
application_id = 1_398_031_176

abbrev pub user_version : ℕ
user_version = 1

abbrev pub table : Bytes → Bytes → SchemaRow
table name sql = record { kind = codes "table"; name = name; sql = some sql }

-- `expected` of `validate_schema`, and the rows that `initialize_store` makes, in their order.
abbrev pub expected_schema : List SchemaRow
expected_schema =
    table (codes "heads") create_heads
    ∷ table (codes "metadata") create_metadata
    ∷ table (codes "receipts") create_receipts
    ∷ table (codes "revisions") create_revisions
    ∷ table (codes "snapshots") create_snapshots
    ∷ []

-- `is_ascii_whitespace`
unfoldable pub is_ascii_whitespace : ℕ → Bool
is_ascii_whitespace c = (c == 32) || (c == 9) || (c == 10) || (c == 12) || (c == 13)

unfoldable pub to_ascii_lowercase : ℕ → ℕ
to_ascii_lowercase c = if leb 65 c && leb c 90 then c + 32 else c

unfoldable pub normalize_sql : Bytes → Bytes
normalize_sql [] = []
normalize_sql (c ∷ rest) =
    if is_ascii_whitespace c then normalize_sql rest else to_ascii_lowercase c ∷ normalize_sql rest

unfoldable pub eq_ignore_ascii_case : Bytes → Bytes → Bool
eq_ignore_ascii_case [] [] = true
eq_ignore_ascii_case (a ∷ left) (b ∷ right) =
    (to_ascii_lowercase a == to_ascii_lowercase b) && eq_ignore_ascii_case left right
eq_ignore_ascii_case _ _ = false

-- `actual.as_deref().map(normalize_sql) != Some(normalize_sql(expected))`
unfoldable pub same_sql : Option Bytes → Option Bytes → Bool
same_sql (some actual) (some expected) = beq (normalize_sql actual) (normalize_sql expected)
same_sql none none = true
same_sql _ _ = false

-- The tests of the rows in pairs; `len` differs where one list ends first.
unfoldable pub same_schema : List SchemaRow → List SchemaRow → Bool
same_schema [] [] = true
same_schema (actual ∷ rest) (expected ∷ others) =
    beq actual.kind expected.kind
    && beq actual.name expected.name
    && same_sql actual.sql expected.sql
    && same_schema rest others
same_schema _ _ = false

-- `metadata.as_slice() != [("schema_version", STORE_SCHEMA_VERSION)]`
unfoldable pub is_metadata : List (Bytes × Bytes) → Bool
is_metadata ((key, value) ∷ []) = beq key (codes "schema_version") && beq value store_schema_version
is_metadata _ = false

abbrev pub is_compiled_badly : List Bytes → Bool
is_compiled_badly options =
    not (any (beq (codes "THREADSAFE=1")) options)
    || any (λ o. beq o (codes "OMIT_WAL") || beq o (codes "OMIT_COMPILEOPTION_DIAGS")) options

-- The CREATE statements and the two pragmas that the transaction of `initialize_store` runs, in a
-- database that has no table yet.
unfoldable pub create_tables : Database → Option Database
create_tables db = elim db.schema [
  | [] ↦ some (record {
    application_id = application_id;
    user_version = user_version;
    schema = expected_schema;
    metadata = [];
    revisions = [];
    receipts = [];
    heads = none;
    snapshots = [];
  })
  | row ∷ rest ↦ none
]

-- `INSERT INTO metadata`, into the new table.
unfoldable pub insert_metadata : Bytes → Bytes → Database → Option Database
insert_metadata key value db = some (record db { metadata = (key, value) ∷ db.metadata })

module _ (host : Host) where
  open host use {
    Connection, query, execute, begin_immediate, commit_transaction, rollback, execute_batch,
    query_text, query_texts, query_integer, query_optional, open_connection,
  }

  unfoldable pub verify_runtime : Connection → Db host (Unit {0})
  verify_runtime connection = do
    version ← sql_call host (query_text (codes "SELECT sqlite_version()") connection)
    source ← sql_call host (query_text (codes "SELECT sqlite_source_id()") connection)
    options ← sql_call host (query_texts (codes "PRAGMA compile_options") connection)
    fail_if
        (not (beq version sqlite_version)
          || not (beq source sqlite_source_id)
          || is_compiled_badly options)
        runtime_mismatch

  unfoldable pub initialize_store : Connection → Db host (Unit {0})
  initialize_store connection = do
    sql_call host (execute_batch connection_settings connection)
    transaction (sql_call host (begin_immediate connection)) (rollback connection) (do
      sql_call host (execute create_tables connection)
      sql_call host
          (execute (insert_metadata (codes "schema_version") store_schema_version) connection)
      sql_call host (commit_transaction connection))

  unfoldable pub configure_connection : Connection → Db host (Unit {0})
  configure_connection connection = sql_call host (execute_batch connection_settings connection)

  unfoldable pub validate_schema : Connection → Db host (Unit {0})
  validate_schema connection = do
    actual ← sql_call host (query (λ db. db.schema) connection)
    fail_if (not (same_schema actual expected_schema)) corrupt_store
    metadata ← sql_call host (query (λ db. db.metadata) connection)
    fail_if (not (is_metadata metadata)) corrupt_store

  -- `if initialize { … } else if … { return Err(CorruptStore) }`
  unfoldable pub initialize_if : Connection → ℕ → ℕ → ℕ → Db host (Unit {0})
  initialize_if connection id version objects =
      if (id == 0) && (version == 0) && (objects == 0)
      then initialize_store connection
      else if not (id == application_id) || not (version == user_version)
      then throw corrupt_store
      else return tt

  unfoldable pub check_settings : Connection → Db host (Unit {0})
  check_settings connection = do
    mode ← sql_call host (query_text (codes "PRAGMA journal_mode") connection)
    sync ← sql_call host (query_integer (codes "PRAGMA synchronous") connection)
    checkpoint ← sql_call host (query_integer (codes "PRAGMA wal_autocheckpoint") connection)
    fail_if
        (not (eq_ignore_ascii_case mode (codes "wal"))
          || not (sync ==ℤ pos 2)
          || not (checkpoint ==ℤ pos 0))
        corrupt_store

  abbrev pub is_some : Option Bytes → Bool
  is_some none = false
  is_some (some text) = true

  unfoldable pub check_integrity : Connection → Db host (Unit {0})
  check_integrity connection = do
    quick_check ← sql_call host (query_text (codes "PRAGMA quick_check") connection)
    foreign_key_error ← sql_call host (query_optional (codes "PRAGMA foreign_key_check") connection)
    fail_if (not (beq quick_check (codes "ok")) || is_some foreign_key_error) corrupt_store

  module _ (im : Im) (sha : Sha256) where
    unfoldable pub open_state : Bytes → Db host (State im host)
    open_state path = do
      connection ← sql_call host (open_connection path)
      verify_runtime connection
      id ← sql_call host (query (λ db. db.application_id) connection)
      version ← sql_call host (query (λ db. db.user_version) connection)
      objects ← sql_call host (query (λ db. length db.schema) connection)
      initialize_if connection id version objects
      configure_connection connection
      validate_schema connection
      check_settings connection
      check_integrity connection
      (project, head, sequence) ← restore host im sha connection
      return (record {
        connection = connection;
        project = project;
        head = head;
        sequence = sequence;
        database_path = path;
        maintenance_failure = none;
      })

-- ===== src/Store/Host.antt =====
-- What crates/project-store/src/lib.rs calls outside of it: `rusqlite` with its SQLite, and the
-- file system, which are a parameter of the model. A statement on the tables is given as what it
-- reads of them or makes of them; one on settings and pages as its text.
pub mod Rules
pub mod Calls
use stitch_editor.Prelude.{ℕ, Bool, Option, none, some, List, ◌≡◌}
use stitch_editor.Prelude.Int.{ℤ}
use stitch_editor.Prelude.Result.{Result, ok, err}
use stitch_editor.Prelude.Text.{codes}
use stitch_editor.Wire.Bytes.{Bytes}
use stitch_editor.Store.Database.{Database}

-- The batch of `initialize_store` and `configure_connection`.
abbrev pub connection_settings : Bytes
connection_settings =
    codes
      "PRAGMA journal_mode=WAL; PRAGMA synchronous=FULL; PRAGMA foreign_keys=ON; PRAGMA wal_autocheckpoint=0;"

abbrev pub vacuum : Bytes
vacuum = codes "VACUUM"

abbrev pub wal_checkpoint : Bytes
wal_checkpoint = codes "PRAGMA wal_checkpoint(TRUNCATE)"

pub record Host : Type 1 where
  pub World : Type 0
  pub Connection : Type 0
  pub Error : Type 0
  -- What the connection sees, and what the database held when its open transaction began.
  pub database : World → Connection → Database
  pub saved : World → Connection → Option Database
  -- The world in which the calls on a connection do not fail.
  pub IsSound : World → Connection → Type 0
  pub open_connection : Bytes → World → World × Result Error Connection
  pub query : {A : Type 0} → (Database → A) → Connection → World → World × Result Error A
  pub execute : (Database → Option Database) → Connection → World → World × Result Error (Unit {0})
  -- `transaction_with_behavior(TransactionBehavior::Immediate)`, `Transaction::commit`, and the
  -- drop of a transaction that was not committed.
  pub begin_immediate : Connection → World → World × Result Error (Unit {0})
  pub commit_transaction : Connection → World → World × Result Error (Unit {0})
  pub rollback : Connection → World → World
  pub execute_batch : Bytes → Connection → World → World × Result Error (Unit {0})
  pub query_text : Bytes → Connection → World → World × Result Error Bytes
  pub query_texts : Bytes → Connection → World → World × Result Error (List Bytes)
  pub query_integer : Bytes → Connection → World → World × Result Error ℤ
  pub query_optional : Bytes → Connection → World → World × Result Error (Option Bytes)
  pub query_triple : Bytes → Connection → World → World × Result Error (ℤ × ℤ × ℤ)
  pub backup : Bytes → Connection → World → World × Result Error (Unit {0})
  -- `Path` and `std::fs`.
  pub parent : Bytes → Option Bytes
  pub file_name : Bytes → Option Bytes
  pub join : Bytes → Bytes → Bytes
  pub exists : Bytes → World → World × Bool
  pub sync_file : Bytes → World → World × Bool
  pub sync_directory : Bytes → World → World × Bool
  pub rename : Bytes → Bytes → World → World × Bool
  -- `std::process::id`, the counter's `fetch_add` with its old value, and decimal digits.
  pub process_id : ℕ
  pub fetch_add : World → World × ℕ
  pub decimal : ℕ → Bytes

-- What the database holds once an open transaction is rolled back.
abbrev pub resting : Option Database → Database → Database
resting none db = db
resting (some before) db = before

module _ (host : Host) where
  open host use {
    World, Connection, Error, database, saved, query, execute, begin_immediate, commit_transaction,
    rollback, execute_batch, query_triple, IsSound,
  }

  unfoldable pub at_rest : World → Connection → Database
  at_rest world c = resting (saved world c) (database world c)

  -- The connection sees the same in both worlds, inside the same transaction or none.
  pub record IsSame (c : Connection) (before after : World) : Type 0 where
    pub same_database : database after c ≡ database before c
    pub same_saved : saved after c ≡ saved before c

  -- The documented behaviour: a query only reads; a statement applies its change or fails, and
  -- one that fails leaves what a rollback restores; a transaction keeps what it found until it is
  -- committed; settings, VACUUM and a checkpoint leave the tables alone.
  pub record Lawful : Type 1 where
    pub query-IsSame :
        {A : Type 0} (f : Database → A) (c : Connection) (w : World) → IsSame c w (query f c w).0
    pub query-ok :
        {A : Type 0} (f : Database → A) (c : Connection) (w : World) (a : A)
        → (query f c w).1 ≡ ok a
        → a ≡ f (database w c)
    pub execute-ok :
        (f : Database → Option Database) (c : Connection) (w : World)
        → (execute f c w).1 ≡ ok tt
        → f (database w c) ≡ some (database (execute f c w).0 c)
    pub execute-saved :
        (f : Database → Option Database) (c : Connection) (w : World)
        → (execute f c w).1 ≡ ok tt
        → saved (execute f c w).0 c ≡ saved w c
    pub execute-err :
        (f : Database → Option Database) (c : Connection) (w : World) (e : Error)
        → (execute f c w).1 ≡ err e
        → at_rest (execute f c w).0 c ≡ at_rest w c
    pub begin-ok :
        (c : Connection) (w : World)
        → (begin_immediate c w).1 ≡ ok tt
        → (saved (begin_immediate c w).0 c ≡ some (database w c))
          × (database (begin_immediate c w).0 c ≡ database w c)
    pub begin-err :
        (c : Connection) (w : World) (e : Error)
        → (begin_immediate c w).1 ≡ err e
        → IsSame c w (begin_immediate c w).0
    pub commit-ok :
        (c : Connection) (w : World)
        → (commit_transaction c w).1 ≡ ok tt
        → (saved (commit_transaction c w).0 c ≡ none)
          × (database (commit_transaction c w).0 c ≡ database w c)
    pub commit-err :
        (c : Connection) (w : World) (e : Error)
        → (commit_transaction c w).1 ≡ err e
        → at_rest (commit_transaction c w).0 c ≡ at_rest w c
    pub rollback-rest :
        (c : Connection) (w : World)
        → (saved (rollback c w) c ≡ none) × (database (rollback c w) c ≡ at_rest w c)
    pub settings-IsSame :
        (c : Connection) (w : World) → IsSame c w (execute_batch connection_settings c w).0
    pub vacuum-IsSame : (c : Connection) (w : World) → IsSame c w (execute_batch vacuum c w).0
    pub wal_checkpoint-IsSame :
        (c : Connection) (w : World) → IsSame c w (query_triple wal_checkpoint c w).0
    -- In a sound world the calls succeed, and the world stays sound.
    pub query-IsSound :
        {A : Type 0} (f : Database → A) (c : Connection) (w : World)
        → IsSound w c
        → ((query f c w).1 ≡ ok (f (database w c))) × IsSound (query f c w).0 c
    pub execute-IsSound :
        (f : Database → Option Database) (c : Connection) (w : World) (db : Database)
        → IsSound w c
        → f (database w c) ≡ some db
        → ((execute f c w).1 ≡ ok tt) × IsSound (execute f c w).0 c
    pub begin-IsSound :
        (c : Connection) (w : World)
        → IsSound w c
        → saved w c ≡ none
        → ((begin_immediate c w).1 ≡ ok tt) × IsSound (begin_immediate c w).0 c
    pub commit-IsSound :
        (c : Connection) (w : World)
        → IsSound w c
        → ((commit_transaction c w).1 ≡ ok tt) × IsSound (commit_transaction c w).0 c
    pub rollback-IsSound : (c : Connection) (w : World) → IsSound w c → IsSound (rollback c w) c

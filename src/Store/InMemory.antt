-- ===== src/Store/InMemory.antt =====
-- A concrete host for crates/project-store/src/lib.rs: one database in memory, whose calls fail
-- only where a constraint is broken, behind the locked SQLite build.
use stitch_editor.Prelude.{
  ℕ, suc, ◌≡◌, refl, true, false, Option, none, some, [], ◌∷◌, ◌++◌, if◌then◌else◌,
}
use stitch_editor.Prelude.Int.{pos}
use stitch_editor.Prelude.Result.{Result, ok, err}
use stitch_editor.Prelude.Text.{codes}
use stitch_editor.Wire.Bytes.{Bytes, beq}
use stitch_editor.Store.Database.{Database}
use stitch_editor.Store.Host.{Host, Lawful, at_rest, resting}
use stitch_editor.Store.Open.Calls.{Opens}
use stitch_editor.Store.Open.{sqlite_version, sqlite_source_id}

-- What is held, what it was when the open transaction began, and the counter.
pub record Memory : Type 0 where
  pub held : Database
  pub began : Option Database
  pub counter : ℕ

abbrev pub empty_database : Database
empty_database = record {
  application_id = 0;
  user_version = 0;
  schema = [];
  metadata = [];
  revisions = [];
  receipts = [];
  heads = none;
  snapshots = [];
}

abbrev applied : Memory → Option Database → Memory × Result (Unit {0}) (Unit {0})
applied memory none = (memory, err tt)
applied memory (some db) = (record memory { held = db }, ok tt)

abbrev text_answer : Bytes → Bytes
text_answer text =
    if beq text (codes "SELECT sqlite_version()")
    then sqlite_version
    else if beq text (codes "SELECT sqlite_source_id()")
    then sqlite_source_id
    else if beq text (codes "PRAGMA journal_mode")
    then codes "wal"
    else codes "ok"

abbrev pub in_memory : Host
in_memory = record {
  World = Memory;
  Connection = Unit {0};
  Error = Unit {0};
  database = λ w c. w.held;
  saved = λ w c. w.began;
  IsSound = λ w c. Unit;
  open_connection = λ path w. (record w { held = resting w.began w.held; began = none }, ok tt);
  query = λ f c w. (w, ok (f w.held));
  execute = λ f c w. applied w (f w.held);
  begin_immediate = λ c w. (record w { began = some w.held }, ok tt);
  commit_transaction = λ c w. (record w { began = none }, ok tt);
  rollback = λ c w. record w { held = resting w.began w.held; began = none };
  execute_batch = λ text c w. (w, ok tt);
  query_text = λ text c w. (w, ok (text_answer text));
  query_texts = λ text c w. (w, ok (codes "THREADSAFE=1" ∷ []));
  query_integer =
      λ text c w. (w, ok (if beq text (codes "PRAGMA synchronous") then pos 2 else pos 0));
  query_optional = λ text c w. (w, ok none);
  query_triple = λ text c w. (w, ok (pos 0, pos 0, pos 0));
  backup = λ path c w. (w, ok tt);
  parent = λ path. some (codes "/");
  file_name = λ path. some path;
  join = λ directory name. directory ++ name;
  exists = λ path w. (w, false);
  sync_file = λ path w. (w, true);
  sync_directory = λ path w. (w, true);
  rename = λ source destination w. (w, true);
  process_id = 1;
  fetch_add = λ w. (record w { counter = suc w.counter }, w.counter);
  decimal = λ n. n ∷ [];
}

applied-ok :
    (w : Memory) (result : Option Database)
    → (applied w result).1 ≡ ok tt
    → result ≡ some (applied w result).0.held
applied-ok w none h = cc h
applied-ok w (some db) h = refl

applied-began : (w : Memory) (result : Option Database) → (applied w result).0.began ≡ w.began
applied-began w none = refl
applied-began w (some db) = refl

applied-err :
    (w : Memory) (result : Option Database) (e : Unit {0})
    → (applied w result).1 ≡ err e
    → resting (applied w result).0.began (applied w result).0.held ≡ resting w.began w.held
applied-err w none e h = refl
applied-err w (some db) e h = cc h

applied-some :
    (w : Memory) (result : Option Database) (db : Database)
    → result ≡ some db
    → (applied w result).1 ≡ ok tt
applied-some w none db h = cc h
applied-some w (some other) db h = refl

pub in_memory-Lawful : Lawful in_memory
unfolding at_rest
in_memory-Lawful = record {
  query-IsSame = λ f c w. record { same_database = refl; same_saved = refl };
  query-ok = λ f c w a h. cc h;
  execute-ok = λ f c w h. applied-ok w (f w.held) h;
  execute-saved = λ f c w h. applied-began w (f w.held);
  execute-err = λ f c w e h. applied-err w (f w.held) e h;
  begin-ok = λ c w h. (refl, refl);
  begin-err = λ c w e h. cc h;
  commit-ok = λ c w h. (refl, refl);
  commit-err = λ c w e h. cc h;
  rollback-rest = λ c w. (refl, refl);
  settings-IsSame = λ c w. record { same_database = refl; same_saved = refl };
  vacuum-IsSame = λ c w. record { same_database = refl; same_saved = refl };
  wal_checkpoint-IsSame = λ c w. record { same_database = refl; same_saved = refl };
  query-IsSound = λ f c w h. (refl, tt);
  execute-IsSound = λ f c w db h e. (applied-some w (f w.held) db e, tt);
  begin-IsSound = λ c w h e. (refl, tt);
  commit-IsSound = λ c w h. (refl, tt);
  rollback-IsSound = λ c w h. tt;
}

pub in_memory-Opens : Opens in_memory
in_memory-Opens = record {
  open_connection-saved = λ path w c h. refl;
  query_text-IsSame = λ text c w. record { same_database = refl; same_saved = refl };
  query_texts-IsSame = λ text c w. record { same_database = refl; same_saved = refl };
  query_integer-IsSame = λ text c w. record { same_database = refl; same_saved = refl };
  query_optional-IsSame = λ text c w. record { same_database = refl; same_saved = refl };
}

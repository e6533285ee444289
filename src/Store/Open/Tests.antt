-- ===== src/Store/Open/Tests.antt =====
-- Projects that are opened by `open_state` of crates/project-store/src/lib.rs, new and again.
use stitch_editor.Prelude.{ap, ◌≡◌, refl, false, none, some, List, [], ◌∷◌}
use stitch_editor.Prelude.Result.{ok}
use stitch_editor.Crates.SortedMaps.{sorted, zero_digest}
use stitch_editor.Model.Command.{add_track, remove_clip}
use stitch_editor.Model.Project.{default, reduce}
use stitch_editor.Store.{
  RequestId, MaintenanceError, CommitReceipt, FaultPoint, after_commit_before_response, model,
  ambiguous,
}
use stitch_editor.Store.Database.{RevisionRow, Database, last_snapshot, find_receipt}
use stitch_editor.Store.InMemory.{in_memory, in_memory-Lawful, in_memory-Opens, empty_database}
use stitch_editor.Store.Maintenance.{State}
use stitch_editor.Store.Commit.{Running}
use stitch_editor.Store.Commit
use stitch_editor.Store.Commit.Outcome.{Holds, new_state, new_db}
use stitch_editor.Store.Log.{log_empty}
use stitch_editor.Store.Restore.{restore}
use stitch_editor.Store.Worker.{Work, commit, open_store, serve}
use stitch_editor.Store.Worker.Runs.{AllServed}
use stitch_editor.Crates.Assoc.{lookup}
use stitch_editor.History.{revision_hash}
use stitch_editor.Model.Command.{canonical_bytes, command_body}
use stitch_editor.Model.Project.{reduce_add_track}
use stitch_editor.Store.Database.{
  delete_snapshots, drop_below, has_revision, has_snapshot, insert_receipt, insert_revision,
  insert_row, insert_snapshot, max_sequence, place_snapshot, receipt_checks, revision_checks,
  snapshot_checks, upsert_head,
}
use stitch_editor.Store.Open.{
  open_state, application_id, user_version, expected_schema, store_schema_version,
}
use stitch_editor.Store.Open.Reopen.{serve-open_state}
use stitch_editor.Store.Open.Sound.{Opened, open_state-Opened}
use stitch_editor.Prelude.Text.{codes}
use stitch_editor.Store.Monad.{converting, maintenance_fault, on_part, transaction}
use stitch_editor.Store.Worker.{after_commit, commit_work, handle, request}
use stitch_editor.Wire.Bytes.{be_bytes, beq, from_be}
use stitch_editor.Wire.Encode.{write_u32}
use stitch_editor.Wire.Reader.{array, count, expect, finish, take_bytes, u32, u64}
use stitch_editor.Store.Tests.{
  request_1, track_1, track_1-IsArray, fresh, fresh_state, memory_with, one_track_project,
}

abbrev opened : State sorted in_memory
opened = record fresh_state { database_path = codes "/project" }

project_opened :
    (open_state in_memory sorted zero_digest (codes "/project") fresh.world).1 ≡ ok opened
unfolding open_state stitch_editor.Store.Monad.◌>>=◌ converting
    stitch_editor.Store.Open.verify_runtime beq stitch_editor.Store.Open.initialize_if
    stitch_editor.Store.Open.initialize_store transaction stitch_editor.Store.Open.create_tables
    stitch_editor.Store.Open.insert_metadata stitch_editor.Store.Open.configure_connection
    stitch_editor.Store.Open.validate_schema stitch_editor.Store.Open.same_schema
    stitch_editor.Store.Open.same_sql stitch_editor.Store.Open.normalize_sql
    stitch_editor.Store.Open.is_ascii_whitespace stitch_editor.Store.Open.to_ascii_lowercase
    stitch_editor.Store.Open.is_metadata stitch_editor.Store.Open.check_settings
    stitch_editor.Store.Open.eq_ignore_ascii_case stitch_editor.Store.Open.check_integrity restore
    stitch_editor.Store.Restore.check_snapshot last_snapshot stitch_editor.Store.Replay.restore_rows
    stitch_editor.Store.Restore.validate_receipts stitch_editor.Store.Replay.check_head
project_opened = refl

open_state-Opened_example :
    Opened in_memory in_memory-Lawful sorted zero_digest
      (codes "/project")
      opened
      (open_state in_memory sorted zero_digest (codes "/project") fresh.world).0
open_state-Opened_example =
    open_state-Opened in_memory in_memory-Lawful in_memory-Opens sorted zero_digest
      (codes "/project") fresh.world opened project_opened

-- The project is opened, used, and opened again.
abbrev started : Running sorted in_memory
started = record {
  world = (open_state in_memory sorted zero_digest (codes "/project") fresh.world).0;
  state = opened;
}

abbrev created_database : Database
created_database = record empty_database {
  application_id = application_id;
  user_version = user_version;
  schema = expected_schema;
  metadata = (codes "schema_version", store_schema_version) ∷ [];
}

started_database : started.world ≡ memory_with created_database
unfolding open_state stitch_editor.Store.Monad.◌>>=◌ converting
    stitch_editor.Store.Open.verify_runtime beq stitch_editor.Store.Open.initialize_if
    stitch_editor.Store.Open.initialize_store transaction stitch_editor.Store.Open.create_tables
    stitch_editor.Store.Open.insert_metadata stitch_editor.Store.Open.configure_connection
    stitch_editor.Store.Open.validate_schema stitch_editor.Store.Open.same_schema
    stitch_editor.Store.Open.same_sql stitch_editor.Store.Open.normalize_sql
    stitch_editor.Store.Open.is_ascii_whitespace stitch_editor.Store.Open.to_ascii_lowercase
    stitch_editor.Store.Open.is_metadata stitch_editor.Store.Open.check_settings
    stitch_editor.Store.Open.eq_ignore_ascii_case stitch_editor.Store.Open.check_integrity restore
    stitch_editor.Store.Restore.check_snapshot last_snapshot stitch_editor.Store.Replay.restore_rows
    stitch_editor.Store.Restore.validate_receipts stitch_editor.Store.Replay.check_head
started_database = refl

started-Holds : Holds in_memory in_memory-Lawful sorted zero_digest false created_database started
started-Holds = record {
  outside = record {
    out_saved = ap (λ w. w.began) started_database;
    out_database = ap (λ w. w.held) started_database;
    out_sound = λ e. tt;
  };
  stored = record { log = log_empty; is_head = refl; all_agree = tt };
}

abbrev one_work : List Work
one_work = commit request_1 (add_track track_1) none ∷ []

one_work_served : AllServed one_work
one_work_served = ((track_1-IsArray, refl), tt)

abbrev used : Running sorted in_memory
used = record {
  world = memory_with (new_db zero_digest opened created_database request_1 (add_track track_1));
  state = new_state zero_digest opened (add_track track_1) one_track_project;
}

used_open : (serve in_memory sorted zero_digest one_work (open_store started)).0 ≡ open_store used
unfolding serve request handle commit_work after_commit Commit.commit
    stitch_editor.Store.Monad.◌>>=◌ on_part Commit.receipt converting Commit.receipt_of find_receipt
    open_state stitch_editor.Store.Open.verify_runtime beq stitch_editor.Store.Open.initialize_if
    stitch_editor.Store.Open.initialize_store transaction stitch_editor.Store.Open.create_tables
    stitch_editor.Store.Open.insert_metadata stitch_editor.Store.Open.configure_connection
    stitch_editor.Store.Open.validate_schema stitch_editor.Store.Open.same_schema
    stitch_editor.Store.Open.same_sql stitch_editor.Store.Open.normalize_sql
    stitch_editor.Store.Open.is_ascii_whitespace stitch_editor.Store.Open.to_ascii_lowercase
    stitch_editor.Store.Open.is_metadata stitch_editor.Store.Open.check_settings
    stitch_editor.Store.Open.eq_ignore_ascii_case stitch_editor.Store.Open.check_integrity restore
    stitch_editor.Store.Restore.check_snapshot last_snapshot stitch_editor.Store.Replay.restore_rows
    stitch_editor.Store.Restore.validate_receipts stitch_editor.Store.Replay.check_head
    Commit.commit_found Commit.commit_new reduce reduce_add_track lookup default Commit.commit_write
    Commit.write_commit insert_revision revision_checks revision_hash canonical_bytes write_u32
    be_bytes command_body insert_row insert_receipt receipt_checks has_revision upsert_head
    Commit.commit_end
used_open = refl

abbrev again : State sorted in_memory
again = record {
  connection = tt;
  project = one_track_project;
  head = some (revision_hash zero_digest none (add_track track_1));
  sequence = 1;
  database_path = codes "/project";
  maintenance_failure = none;
}

opened_again :
    open_state in_memory sorted zero_digest (codes "/project") used.world ≡ (used.world, ok again)
unfolding open_state stitch_editor.Store.Monad.◌>>=◌ converting
    stitch_editor.Store.Open.verify_runtime beq stitch_editor.Store.Open.initialize_if
    stitch_editor.Store.Open.configure_connection stitch_editor.Store.Open.validate_schema
    stitch_editor.Store.Open.same_schema stitch_editor.Store.Open.same_sql
    stitch_editor.Store.Open.normalize_sql stitch_editor.Store.Open.is_ascii_whitespace
    stitch_editor.Store.Open.to_ascii_lowercase stitch_editor.Store.Open.is_metadata
    stitch_editor.Store.Open.check_settings stitch_editor.Store.Open.eq_ignore_ascii_case
    stitch_editor.Store.Open.check_integrity restore stitch_editor.Store.Restore.check_snapshot
    last_snapshot stitch_editor.Store.Replay.restore_rows stitch_editor.Store.Replay.restore_row
    stitch_editor.Model.Command.from_canonical_bytes stitch_editor.Model.Command.read_command expect
    take_bytes canonical_bytes write_u32 be_bytes command_body u32 array from_be
    stitch_editor.Wire.Reader.byte stitch_editor.Model.Command.read_body finish
    stitch_editor.Store.Replay.same_hash Commit.hash_from_bytes revision_hash reduce
    reduce_add_track lookup default stitch_editor.Store.Replay.match_snapshot
    stitch_editor.Store.Restore.validate_receipts stitch_editor.Store.Database.is_mismatch
    stitch_editor.Store.Database.find_revision stitch_editor.Store.Replay.check_head
    stitch_editor.Store.Replay.compare_head
opened_again = refl

serve-open_state_example :
    (again.project ≡ used.state.project)
    × (again.head ≡ used.state.head)
    × (again.sequence ≡ used.state.sequence)
serve-open_state_example =
    serve-open_state in_memory in_memory-Lawful in_memory-Opens sorted zero_digest one_work started
      used created_database (codes "/project") used.world again started-Holds one_work_served
      used_open (ap (λ x. x.1) opened_again) (ap (λ x. x.0.held.revisions) opened_again)

-- ===== src/Store/Tests.antt =====
-- A store in memory with a few commits, and the theorems on it.
use stitch_editor.Prelude.{
  ◌≡◌, refl, subst, Bool, true, false, none, some, List, [], ◌∷◌, arith, replicate, map, inr,
}
use stitch_editor.Prelude.Result.{ok, err}
use stitch_editor.Ids.{missing_clip}
use stitch_editor.Wire.Bytes.{Bytes, IsArray}
use stitch_editor.Crates.SortedMaps.{sorted, zero_digest}
use stitch_editor.Model.Command.{add_track, remove_clip}
use stitch_editor.Model.Project.{Project, default, reduce}
use stitch_editor.Store.{
  RequestId, MaintenanceError, CommitReceipt, FaultPoint, after_commit_before_response,
  before_snapshot, maintenance, model, ambiguous,
}
use stitch_editor.Store.Database.{RevisionRow, Database, last_snapshot, find_receipt}
use stitch_editor.Store.InMemory.{Memory, in_memory, in_memory-Lawful, empty_database}
use stitch_editor.Store.Maintenance.{State}
use stitch_editor.Store.Commit.{Running}
use stitch_editor.Store.Commit
use stitch_editor.Store.Commit.Outcome.{Holds, to_receipt, new_row, new_state, new_db}
use stitch_editor.Store.Commit.Retry.{commit-retry, commit-refused}
use stitch_editor.Store.Commit.Succeeds.{commit-succeeds}
use stitch_editor.Store.Log.{log_empty}
use stitch_editor.Store.Restore.{restore}
use stitch_editor.Store.Restore.Accepts.{IsReadable}
use stitch_editor.Store.Restore.Sound.{restore-IsReplay, IsReplay}
use stitch_editor.Store.Worker.{
  Work, commit, snapshot, compact_store, ProjectStore, open_store, closed_store, serve,
}
use stitch_editor.Store.Worker.Durable.{serve-restore, serve-Survives, Survives}
use stitch_editor.Store.Worker.Runs.{AllServed}
use stitch_editor.Store.Worker.Refusals.{serve-refused, refusal, asked_for}
use stitch_editor.Crates.Assoc.{lookup}
use stitch_editor.Crates.SortedMaps.{insert_sorted}
use stitch_editor.History.{revision_bytes, revision_hash}
use stitch_editor.Model.Command.{canonical_bytes, command_body}
use stitch_editor.Model.Project.{reduce_add_track, reduce_remove_clip}
use stitch_editor.Model.Project.Decode.{
  read_assets, read_clip_ids, read_clips, read_project, read_tracks,
}
use stitch_editor.Model.Project.Encode.{project_bytes, semantic_digest, track_bytes}
use stitch_editor.Model.Project.Validate.{
  project_from_canonical_bytes, validate, validate_clip_ids, validate_clips, validate_tracks,
}
use stitch_editor.Store.Database.{
  delete_snapshots, drop_below, has_revision, has_snapshot, insert_receipt, insert_revision,
  insert_row, insert_snapshot, max_sequence, place_snapshot, receipt_checks, revision_checks,
  snapshot_checks, upsert_head,
}
use stitch_editor.Store.Maintenance.{
  compact, delete_old, persist_missing, persist_snapshot, write_snapshot,
}
use stitch_editor.Store.Monad.{converting, maintenance_fault, on_part, transaction}
use stitch_editor.Store.Worker.{
  after_commit, commit_work, handle, note_failure, request, unless_failed,
}
use stitch_editor.Wire.Bytes.{be_bytes, beq, from_be}
use stitch_editor.Wire.Encode.{write_bytes, write_u32, write_u64}
use stitch_editor.Wire.Reader.{array, count, expect, finish, take_bytes, u32, u64}

abbrev pub request_1 : Bytes
request_1 = replicate 16 1

abbrev pub track_1 : Bytes
track_1 = replicate 16 7

abbrev pub fresh_state : State sorted in_memory
fresh_state = record {
  connection = tt;
  project = default sorted;
  head = none;
  sequence = 0;
  database_path = [];
  maintenance_failure = none;
}

abbrev pub memory_with : Database → Memory
memory_with db = record { held = db; began = none; counter = 0 }

abbrev pub fresh : Running sorted in_memory
fresh = record { world = memory_with empty_database; state = fresh_state }

fresh-Holds :
    (sound : Bool) → Holds in_memory in_memory-Lawful sorted zero_digest sound empty_database fresh
fresh-Holds sound = record {
  outside = record { out_saved = refl; out_database = refl; out_sound = λ e. tt };
  stored = record { log = log_empty; is_head = refl; all_agree = tt };
}

abbrev works : List Work
works =
    commit request_1 (add_track track_1) (some after_commit_before_response)
    ∷ commit request_1 (add_track track_1) none
    ∷ snapshot none
    ∷ compact_store none
    ∷ []

abbrev running_of : ProjectStore in_memory sorted zero_digest → Running sorted in_memory
running_of (open_store running) = running
running_of (closed_store world) = fresh

abbrev served : Running sorted in_memory
served = running_of (serve in_memory sorted zero_digest works (open_store fresh)).0

served_open : (serve in_memory sorted zero_digest works (open_store fresh)).0 ≡ open_store served
unfolding serve request
served_open = refl

served-IsReadable : IsReadable sorted zero_digest (last_snapshot served.world.held.snapshots)
unfolding last_snapshot serve request handle unless_failed note_failure commit_work after_commit
    Commit.commit stitch_editor.Store.Monad.◌>>=◌ on_part Commit.receipt converting
    Commit.receipt_of stitch_editor.Store.Database.find_receipt Commit.commit_found
    Commit.commit_new stitch_editor.Model.Project.reduce reduce_add_track lookup default
    Commit.commit_write Commit.write_commit transaction insert_revision revision_checks
    revision_hash canonical_bytes write_u32 be_bytes command_body insert_row insert_receipt
    receipt_checks has_revision beq upsert_head Commit.commit_end Commit.hash_from_bytes
    Commit.commit_again persist_snapshot maintenance_fault persist_missing has_snapshot
    write_snapshot insert_snapshot snapshot_checks project_bytes write_u64 insert_sorted track_bytes
    semantic_digest compact place_snapshot delete_old delete_snapshots
    stitch_editor.Store.Maintenance.checkpoint drop_below max_sequence project_from_canonical_bytes
    read_project expect take_bytes u32 array from_be count u64 read_assets read_tracks read_clip_ids
    read_clips finish validate validate_tracks validate_clip_ids validate_clips
served-IsReadable = (served.state.project, refl, refl)

pub track_1-IsArray : IsArray 16 track_1
track_1-IsArray = omega arith

works_served : AllServed works
works_served = ((track_1-IsArray, refl), ((track_1-IsArray, refl), (tt, (tt, tt))))

-- The response to the commit is lost, the commit is made again, a snapshot is made and the store is
-- compacted.
serve-restore_example :
    (restore in_memory sorted zero_digest served.state.connection served.world).1
    ≡ ok (served.state.project, served.state.head, served.state.sequence)
serve-restore_example =
    serve-restore in_memory in_memory-Lawful sorted zero_digest works fresh served empty_database
      (fresh-Holds false) works_served served_open tt served-IsReadable

served_restored :
    (restore in_memory sorted zero_digest served.state.connection served.world).1
    ≡ ok (served.state.project, served.state.head, served.state.sequence)
served_restored =
    serve-restore in_memory in_memory-Lawful sorted zero_digest works fresh served empty_database
      (fresh-Holds false) works_served served_open tt served-IsReadable

served_holds : Survives in_memory in_memory-Lawful sorted zero_digest (open_store served)
served_holds = subst (Survives in_memory in_memory-Lawful sorted zero_digest) served_open (
    serve-Survives in_memory in_memory-Lawful sorted zero_digest works (open_store fresh)
      works_served (empty_database, fresh-Holds false))

serve-Survives_example :
    Survives in_memory in_memory-Lawful sorted zero_digest
      (serve in_memory sorted zero_digest works (open_store fresh)).0
serve-Survives_example =
    serve-Survives in_memory in_memory-Lawful sorted zero_digest works (open_store fresh)
      works_served (empty_database, fresh-Holds false)

restore-IsReplay_example :
    IsReplay sorted zero_digest served_holds.0.revisions served.state.project served.state.head
      served.state.sequence
restore-IsReplay_example =
    restore-IsReplay in_memory in_memory-Lawful sorted zero_digest tt served_holds.0 served.world
      served.state.project served.state.head served.state.sequence served_holds.1.outside
      served_restored

lost_once :
    (Commit.commit in_memory sorted zero_digest request_1
      (add_track track_1)
      (some after_commit_before_response)
      fresh).1
    ≡ err (ambiguous request_1)
unfolding Commit.commit stitch_editor.Store.Monad.◌>>=◌ on_part Commit.receipt converting
    Commit.receipt_of find_receipt Commit.commit_found Commit.commit_new reduce reduce_add_track
    lookup default Commit.commit_write Commit.write_commit transaction insert_revision
    revision_bytes revision_hash canonical_bytes command_body Commit.commit_end has_revision
    insert_receipt insert_row receipt_checks revision_checks upsert_head be_bytes beq write_bytes
    write_u32 write_u64
lost_once = refl

commit-retry_example :
    let x =
      Commit.commit in_memory sorted zero_digest request_1
        (add_track track_1)
        (some after_commit_before_response)
        fresh in
    let y = Commit.commit in_memory sorted zero_digest request_1 (add_track track_1) none x.0 in
    (receipt : CommitReceipt) × (y.1 ≡ ok receipt)
    × ((first : CommitReceipt) → x.1 ≡ ok first → first ≡ receipt)
    × (y.0.state ≡ x.0.state)
    × (in_memory.database y.0.world x.0.state.connection
        ≡ in_memory.database x.0.world x.0.state.connection)
commit-retry_example =
    commit-retry in_memory in_memory-Lawful sorted zero_digest fresh empty_database request_1
      (add_track track_1) (some after_commit_before_response) none (fresh-Holds true)
      track_1-IsArray refl (inr lost_once)

-- There is no clip to remove.
removal_refused :
    (Commit.commit in_memory sorted zero_digest request_1 (remove_clip track_1) none fresh).1
    ≡ err (model (missing_clip track_1))
unfolding Commit.commit stitch_editor.Store.Monad.◌>>=◌ on_part Commit.receipt converting
    Commit.receipt_of find_receipt Commit.commit_found Commit.commit_new reduce reduce_remove_clip
    lookup default
removal_refused = refl

commit-refused_example :
    let after =
      (Commit.commit in_memory sorted zero_digest request_1 (remove_clip track_1) none fresh).0 in
    (after.state ≡ fresh.state)
    × (in_memory.database after.world fresh.state.connection
        ≡ in_memory.database fresh.world fresh.state.connection)
commit-refused_example =
    commit-refused in_memory in_memory-Lawful sorted zero_digest fresh empty_database request_1
      (remove_clip track_1) none (model (missing_clip track_1)) (fresh-Holds false) track_1-IsArray
      refl removal_refused (λ e. cc e)

no_receipt : find_receipt request_1 empty_database.receipts ≡ none
unfolding find_receipt
no_receipt = refl

abbrev pub one_track_project : Project sorted
one_track_project = record (default sorted) {
  tracks = (sorted.insert track_1 (record { id = track_1; clip_ids = [] }) sorted.empty).0;
}

one_track_reduced : reduce sorted (default sorted) (add_track track_1) ≡ ok one_track_project
unfolding reduce reduce_add_track lookup default
one_track_reduced = refl

commit-succeeds_example :
    let x = Commit.commit in_memory sorted zero_digest request_1 (add_track track_1) none fresh in
    (x.1
      ≡ ok (to_receipt request_1 (new_row zero_digest fresh_state request_1 (add_track track_1))))
    × (x.0.state ≡ new_state zero_digest fresh_state (add_track track_1) one_track_project)
    × (in_memory.database x.0.world fresh.state.connection
        ≡ new_db zero_digest fresh_state empty_database request_1 (add_track track_1))
commit-succeeds_example =
    commit-succeeds in_memory in_memory-Lawful sorted zero_digest fresh empty_database request_1
      (add_track track_1) one_track_project (fresh-Holds true) track_1-IsArray refl no_receipt
      one_track_reduced (omega arith)

-- A snapshot is asked for, and fails on the way.
abbrev used : Running sorted in_memory
used = record fresh {
  state = record fresh_state {
    project = one_track_project;
    head = some (replicate 32 0);
    sequence = 1;
  };
}

snapshot_fails :
    (persist_snapshot in_memory sorted zero_digest used.state (some before_snapshot) used.world).1
    ≡ err (maintenance (MaintenanceError.fault before_snapshot))
unfolding persist_snapshot stitch_editor.Store.Monad.◌>>=◌ maintenance_fault
snapshot_fails = refl

serve-refused_example :
    let x =
      request in_memory sorted zero_digest (snapshot (some before_snapshot)) (open_store used) in
    serve in_memory sorted zero_digest (snapshot (some before_snapshot) ∷ works) (open_store used)
    ≡ (
      x.0,
      x.1
          ∷ map
              (refusal in_memory sorted zero_digest (MaintenanceError.fault before_snapshot))
              works,
    )
serve-refused_example =
    serve-refused in_memory sorted zero_digest used (MaintenanceError.fault before_snapshot)
      (snapshot (some before_snapshot)) works (asked_for (some before_snapshot) refl snapshot_fails)
      (tt, (tt, (tt, (tt, tt))))

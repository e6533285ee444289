-- ===== src/Abi/Tests.antt =====
-- Calls on small process states, and the theorems on them.
use stitch_editor.Prelude.{
  ℕ, suc, ◌-◌, ◌≡◌, ◌↔◌, ◌≢◌, some, none, sym, ◌∙◌, refl, true, false, List, [], ◌∷◌, arith, ◌==◌,
  if◌then◌else◌, map, replicate,
}
use stitch_editor.Prelude.Result.{ok}
use stitch_editor.Prelude.Int.{pos, ◌*ℤ◌}
use stitch_editor.Time.Gcd.{gcd}
use stitch_editor.Time.Rational.{Rational, cmp}
use stitch_editor.Time.Range.{TimeRange, IsRange}
use stitch_editor.Wire.Bytes.{beq}
use stitch_editor.Crates.Assoc.{lookup}
use stitch_editor.Crates.SortedMaps.{sorted, zero_digest}
use stitch_editor.Model.Command.{Command, add_track, move_clip}
use stitch_editor.Model.Project.{default, reduce, reduce_add_track}
use stitch_editor.History.{EditorHistory, empty_history, project, apply, record_revision}
use stitch_editor.History.Timeline.{do_apply, run}
use stitch_editor.Abi.Table.{Table, get, insert}
use stitch_editor.Abi.Types.{
  registered, acquired, StitchTimeRange, StitchCommand, StitchCommandBatch, unknown_handle, success,
}
use stitch_editor.Abi.Process.{
  Lease, CoreState, Process, RefHandle, ffi, finish, not_in_callback, core, found, stop_if, ◌>>=◌,
  return, fail, valid_header,
}
use stitch_editor.Abi.Handles.{retain, retain_found, retain_entry, release}
use stitch_editor.Abi.Handles.Counts.{IsCounted, refs_of, retain-refs, release-refs}
use stitch_editor.Abi.Core.{stitch_core_destroy, stitch_core_submit}
use stitch_editor.Abi.Batch.{apply_all, apply_one}
use stitch_editor.Abi.Batch.Replay.{Converts, AllReduce, apply_all-run}
use stitch_editor.Abi.Convert.{
  command, by_kind, to_add_track, no_other_ids, no_identity, no_ranges, zero_id, zero_range,
}
use stitch_editor.Abi.Convert.RoundTrip.{raw, command-raw}
use stitch_editor.Abi.Calls.{Call, perform, core_destroy, core_submit}
use stitch_editor.Abi.Unchanged.{perform-failed}
use stitch_editor.Abi.Lease.{lease_transition}
use stitch_editor.Abi.Lease.Transitions.{in_state, lease_transition_iff}
use stitch_editor.Abi.Reentrant.{mutates_destroy, mutates_submit, perform_all, submit-reentrant}

abbrev nothing : Process sorted
nothing = record {
  next_handle = 1;
  cores = [];
  snapshots = [];
  diffs = [];
  in_callback = λ thread. false;
}

missing_core : (perform sorted zero_digest 7 true (core_destroy 3) nothing).1 ≡ unknown_handle
unfolding perform stitch_core_destroy ffi finish not_in_callback core get found stop_if ◌>>=◌ return
    fail
missing_core = refl

unknown_handle-ne-success : unknown_handle ≢ success
unknown_handle-ne-success e = cc e

perform-failed_example : (perform sorted zero_digest 7 true (core_destroy 3) nothing).0 ≡ nothing
perform-failed_example =
    perform-failed sorted zero_digest 7 true (core_destroy 3) nothing
      (λ e. unknown_handle-ne-success (sym missing_core ∙ e))

abbrev one_handle : Table (RefHandle ℕ)
one_handle = (5, record { value = 42; refs = 2 }) ∷ []

one_handle-IsCounted : IsCounted one_handle
unfolding get
one_handle-IsCounted k entry h = ground arith

retain-refs_example :
    IsCounted (retain 5 one_handle).0
    × ((k : ℕ)
        → refs_of (get k (retain 5 one_handle).0)
          ≡ (if 5 == k then suc (refs_of (get k one_handle)) else refs_of (get k one_handle)))
unfolding retain get retain_found retain_entry
retain-refs_example = retain-refs 5 one_handle one_handle-IsCounted refl

release-refs_example :
    IsCounted (release 5 one_handle).0
    × ((k : ℕ)
        → refs_of (get k (release 5 one_handle).0)
          ≡ (if 5 == k then refs_of (get k one_handle) - 1 else refs_of (get k one_handle)))
release-refs_example = release-refs 5 one_handle one_handle-IsCounted

abbrev no_range : StitchTimeRange
no_range = record {
  start = record { numerator = pos 0; denominator = pos 0 };
  end = record { numerator = pos 0; denominator = pos 0 };
}

abbrev raw_track : StitchCommand
raw_track = record {
  header = record { struct_size = 184; version = 1 };
  kind = 2;
  reserved = 0;
  primary_id = replicate 16 1;
  secondary_id = replicate 16 0;
  tertiary_id = replicate 16 0;
  content_sha256 = replicate 32 0;
  byte_length = 0;
  provider_id = replicate 16 0;
  timeline_range = no_range;
  source_range = no_range;
}

abbrev with_track : EditorHistory sorted
with_track =
    (apply sorted zero_digest (empty_history sorted zero_digest) (add_track (replicate 16 1))).0

track_submitted :
    apply_all sorted zero_digest (raw_track ∷ []) (empty_history sorted zero_digest) ≡ ok with_track
unfolding apply_all apply_one command valid_header by_kind to_add_track no_other_ids no_identity
    no_ranges zero_id zero_range stitch_editor.Abi.Convert.zero_digest beq apply record_revision
    reduce reduce_add_track project default lookup
track_submitted = refl

apply_all-run_example :
    (apply_all sorted zero_digest (raw_track ∷ []) (empty_history sorted zero_digest)
      ≡ ok with_track)
    ↔ ((commands : List Command) × Converts (raw_track ∷ []) commands
        × AllReduce sorted zero_digest (empty_history sorted zero_digest) commands
        × (run sorted zero_digest (empty_history sorted zero_digest) (map do_apply commands)
            ≡ with_track))
apply_all-run_example =
    apply_all-run sorted zero_digest (raw_track ∷ []) (empty_history sorted zero_digest) with_track

abbrev frame_lease : Lease
frame_lease = record {
  metadata = record {
    header = record { struct_size = 136; version = 1 };
    lease_id = 2;
    revision = replicate 32 0;
    epoch = 0;
    device_generation = 9;
    surface_token = 1;
    synchronization_token = 1;
    owner_thread_token = 2;
    pixel_width = 1;
    pixel_height = 1;
    pixel_format = 1;
    synchronization_kind = 1;
    synchronization_value = 0;
    presentation_time = record { numerator = pos 0; denominator = pos 1 };
    state = 1;
    reserved = 0;
  };
  state = registered;
  owner = 7;
}

abbrev leasing : CoreState sorted
leasing = record {
  history = empty_history sorted zero_digest;
  epoch = 0;
  leases = (2, frame_lease) ∷ [];
  owner = 7;
}

abbrev one_core : Process sorted
one_core = record nothing { cores = (1, leasing) ∷ [] }

lease_transition_iff_example :
    (lease_transition sorted zero_digest 7 1 2 9 registered acquired one_core ≡ (
      record one_core {
        cores =
            insert 1
              (record leasing { leases = insert 2 (in_state acquired frame_lease) leasing.leases })
              one_core.cores;
      },
      ok tt,
    ))
    ↔ ((frame_lease.metadata.device_generation ≡ 9)
        × (frame_lease.owner ≡ 7)
        × (registered ≡ registered))
unfolding get
lease_transition_iff_example =
    lease_transition_iff sorted zero_digest 7 1 2 9 registered acquired one_core leasing frame_lease
      refl refl

-- A track is added, and the callback destroys the core and submits the batch again.
abbrev one_batch : StitchCommandBatch
one_batch = record {
  header = record { struct_size = 64; version = 1 };
  commands = some (raw_track ∷ []);
  command_count = 1;
  reserved = 0;
  expected_revision = replicate 32 0;
  epoch = 0;
}

abbrev again : ℕ → List (Call sorted)
again id = core_destroy 1 ∷ core_submit 1 (some one_batch) none true ∷ []

batch_submitted :
    (stitch_core_submit sorted zero_digest 7 1
      (some one_batch)
      (some (λ id q. q))
      true
      true
      one_core).result
    ≡ success
unfolding stitch_core_submit ffi finish ◌>>=◌ stitch_editor.Abi.Process.writable return
    stitch_editor.Abi.Core.admitted not_in_callback stop_if stitch_editor.Abi.Process.input found
    stitch_editor.Abi.Process.lift valid_header core get beq stitch_editor.History.current_hash
    apply_all apply_one command by_kind to_add_track no_other_ids zero_id no_identity
    stitch_editor.Abi.Convert.zero_digest no_ranges zero_range apply record_revision reduce
    reduce_add_track lookup project default stitch_editor.Abi.Core.commit
    stitch_editor.Abi.Process.store_core stitch_editor.Abi.Process.writes
    stitch_editor.Abi.Process.next_handle stitch_editor.Abi.Process.output
    stitch_editor.Abi.Core.run_callback
batch_submitted = refl

submit-reentrant_example :
    stitch_core_submit sorted zero_digest 7 1
      (some one_batch)
      (some (λ id q. (perform_all sorted zero_digest 7 true (again id) q).0))
      true
      true
      one_core
    ≡ stitch_core_submit sorted zero_digest 7 1
        (some one_batch)
        (some (λ id q. q))
        true
        true
        one_core
submit-reentrant_example =
    submit-reentrant sorted zero_digest 7 true 1 (some one_batch) again true one_core
      (λ id. (mutates_destroy 1, (mutates_submit 1 (some one_batch) none true, tt)))

abbrev zero_time : Rational
zero_time = record { numerator = pos 0; denominator = pos 1 }

abbrev second : Rational
second = record { numerator = pos 1; denominator = pos 1 }

abbrev first_second : TimeRange
first_second = record { start = zero_time; end = second }

first_second-IsRange : IsRange first_second
unfolding gcd cmp ◌*ℤ◌
first_second-IsRange = record {
  start_canonical = record {
    numerator_fits = omega arith;
    denominator_fits = omega arith;
    denominator_pos = omega arith;
    coprime = refl;
  };
  end_canonical = record {
    numerator_fits = omega arith;
    denominator_fits = omega arith;
    denominator_pos = omega arith;
    coprime = refl;
  };
  ordered = refl;
}

command-raw_example :
    command (raw (move_clip (replicate 16 1) first_second))
    ≡ ok (move_clip (replicate 16 1) first_second)
command-raw_example =
    command-raw (move_clip (replicate 16 1) first_second) (omega arith, first_second-IsRange)

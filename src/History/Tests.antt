-- ===== src/History/Tests.antt =====
-- A history of one revision, and the theorems on it.
use stitch_editor.Prelude.{◌≡◌, refl, true, false, some, List, [], ◌∷◌, arith, replicate}
use stitch_editor.Prelude.Result.{ok}
use stitch_editor.Wire.Bytes.{Bytes}
use stitch_editor.Crates.Assoc.{lookup}
use stitch_editor.Crates.SortedMaps.{sorted, zero_digest}
use stitch_editor.Model.Command.{Command, add_track}
use stitch_editor.Model.Project.{Project, default, reduce, reduce_add_track}
use stitch_editor.Model.Project.Invariant.{IsWellFormed}
use stitch_editor.History.{
  EditorHistory, empty_history, project, current_hash, revision_count, apply, undo, undo_at, redo,
  revision_hash,
}
use stitch_editor.History.Timeline.{
  Event, do_apply, do_undo, do_redo, timeline, run, observations, abstract_observations, history_of,
}
use stitch_editor.History.Refinement.{observations-history_of}
use stitch_editor.History.Replay.{replay, run-replay, run-IsWellFormed}
use stitch_editor.History.Moves.{redo-undo, undo-redo, apply-ok}

abbrev track_1 : Bytes
track_1 = replicate 16 1

abbrev events : List Event
events = do_apply (add_track track_1) ∷ do_undo ∷ do_redo ∷ []

observations-history_of_example :
    observations sorted zero_digest (history_of sorted zero_digest (timeline [] [])) events
    ≡ abstract_observations sorted zero_digest (timeline [] []) events
observations-history_of_example = observations-history_of sorted zero_digest (timeline [] []) events

run-replay_example :
    (commands : List Command) × (replay sorted zero_digest commands
      ≡ ok (
        project sorted zero_digest
            (run sorted zero_digest (empty_history sorted zero_digest) events),
        current_hash sorted zero_digest
            (run sorted zero_digest (empty_history sorted zero_digest) events),
      ))
run-replay_example = run-replay sorted zero_digest events

run-IsWellFormed_example :
    IsWellFormed sorted (
      project sorted zero_digest (run sorted zero_digest (empty_history sorted zero_digest) events))
run-IsWellFormed_example = run-IsWellFormed sorted zero_digest events

abbrev one_track : Project sorted
one_track = record (default sorted) {
  tracks = (sorted.insert track_1 (record { id = track_1; clip_ids = [] }) sorted.empty).0;
}

abbrev one_revision : EditorHistory sorted
one_revision = record {
  revisions = (record { project = one_track; hash = replicate 32 0 }) ∷ [];
  cursor = 1;
}

abbrev undone : EditorHistory sorted
undone = record one_revision { cursor = 0 }

redo-undo_example : redo sorted zero_digest undone ≡ (one_revision, true)
unfolding undo undo_at
redo-undo_example = redo-undo sorted zero_digest one_revision undone (omega arith) refl

undo-redo_example : undo sorted zero_digest one_revision ≡ (undone, true)
unfolding redo
undo-redo_example = undo-redo sorted zero_digest undone one_revision refl

track_added :
    reduce sorted
      (project sorted zero_digest (empty_history sorted zero_digest))
      (add_track track_1)
    ≡ ok one_track
unfolding reduce reduce_add_track default lookup project
track_added = refl

apply-ok_example :
    (next : EditorHistory sorted) × (apply sorted zero_digest
        (empty_history sorted zero_digest)
        (add_track track_1)
      ≡ (
        next,
        ok (
            revision_hash zero_digest
              (current_hash sorted zero_digest (empty_history sorted zero_digest))
              (add_track track_1)),
      ))
    × (project sorted zero_digest next ≡ one_track)
    × (current_hash sorted zero_digest next
        ≡ some (
            revision_hash zero_digest
              (current_hash sorted zero_digest (empty_history sorted zero_digest))
              (add_track track_1)))
    × (revision_count sorted zero_digest next ≡ 1)
    × ((redo sorted zero_digest next).1 ≡ false)
    × (project sorted zero_digest (undo sorted zero_digest next).0
        ≡ project sorted zero_digest (empty_history sorted zero_digest))
    × (current_hash sorted zero_digest (undo sorted zero_digest next).0
        ≡ current_hash sorted zero_digest (empty_history sorted zero_digest))
apply-ok_example =
    apply-ok sorted zero_digest (empty_history sorted zero_digest) (add_track track_1) (omega arith)
      one_track track_added

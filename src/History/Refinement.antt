-- ===== src/History/Refinement.antt =====
-- `EditorHistory` of crates/editor-core/src/lib.rs against the abstract machine of Timeline.
use stitch_editor.Prelude.{◌+◌, ◌≡◌, refl, ap, List, [], ◌∷◌, length, arith}
use stitch_editor.Prelude.Result.{Result, ok, err}
use stitch_editor.Ids.{ModelError}
use stitch_editor.Crates.Im.{Im, Sha256}
use stitch_editor.Model.Command.{Command}
use stitch_editor.Model.Project.{Project}
use stitch_editor.History.{
  HistoryRevision, entry_before, project_or_default, hash_of, project, current_hash, revision_count,
  record_revision, apply, undo, undo_at, redo,
}
use stitch_editor.History.Onto.{onto, length-onto, get_elem?-past, take-onto, append-onto}
use stitch_editor.History.Timeline.{
  Timeline, timeline, Event, do_apply, do_undo, do_redo, Outcome, applied, moved, with_outcome,
  concrete, run, abstract_run, newest, step, observe, observations, apply_to, abstract_step,
  abstract_observe, abstract_observations, history_of,
}

module _ (im : Im) (sha : Sha256) where
  entry_before-onto :
      (past future : List (HistoryRevision im))
      → entry_before (onto past future) (length past) ≡ newest past
  entry_before-onto [] future = refl
  entry_before-onto (r ∷ past) future =
      get_elem?-past past (r ∷ future) 0 (length past) (omega arith)

  module _ (past future : List (HistoryRevision im)) where
    pub project-history_of :
        project im sha (history_of im sha (timeline past future))
        ≡ project_or_default im (newest past)
    unfolding project history_of
    project-history_of = ap (project_or_default im) (entry_before-onto past future)

    pub hash-history_of :
        current_hash im sha (history_of im sha (timeline past future)) ≡ hash_of im (newest past)
    unfolding current_hash history_of
    hash-history_of = ap (hash_of im) (entry_before-onto past future)

    count-history_of :
        revision_count im sha (history_of im sha (timeline past future))
        ≡ length past + length future
    unfolding revision_count history_of
    count-history_of = length-onto past future

    record-history_of :
        (command : Command) (r : Result ModelError (Project im))
        → with_outcome applied
            (record_revision im sha (history_of im sha (timeline past future)) command r)
          ≡ concrete im sha (apply_to im sha past future command r)
    unfolding record_revision history_of apply_to
    record-history_of command (err e) = refl
    record-history_of command (ok next) =
        rw (hash-history_of, take-onto past future, append-onto past []) refl

    apply-history_of :
        (command : Command)
        → with_outcome applied (apply im sha (history_of im sha (timeline past future)) command)
          ≡ concrete im sha (abstract_step im sha (timeline past future) (do_apply command))
    unfolding apply abstract_step
    apply-history_of command = rw project-history_of (record-history_of command _)

  redo-history_of :
      (past future : List (HistoryRevision im))
      → with_outcome moved (redo im sha (history_of im sha (timeline past future)))
        ≡ concrete im sha (abstract_step im sha (timeline past future) do_redo)
  unfolding redo history_of abstract_step
  redo-history_of past [] = ground (arith, length-onto past [])
  redo-history_of past (r ∷ future) = ground (arith, length-onto past (r ∷ future))

  step-history_of :
      (z : Timeline im) (event : Event)
      → step im sha (history_of im sha z) event ≡ concrete im sha (abstract_step im sha z event)
  unfolding step abstract_step undo undo_at history_of
  step-history_of (timeline past future) (do_apply command) = apply-history_of past future command
  step-history_of (timeline [] future) do_undo = refl
  step-history_of (timeline (r ∷ past) future) do_undo = refl
  step-history_of (timeline past future) do_redo = redo-history_of past future

  observe-history_of :
      (z : Timeline im) (outcome : Outcome)
      → observe im sha (history_of im sha z) outcome ≡ abstract_observe im sha z outcome
  unfolding observe abstract_observe
  observe-history_of (timeline past future) outcome =
      rw (project-history_of, hash-history_of, count-history_of) refl

  -- Whatever is called on it, the vector of revisions with a cursor gives the results, projects,
  -- hashes and revision counts of a past and a future: apply replaces the future, undo and redo
  -- move one revision between the two.
  pub observations-history_of :
      (z : Timeline im) (events : List Event)
      → observations im sha (history_of im sha z) events ≡ abstract_observations im sha z events
  unfolding observations abstract_observations
  observations-history_of z [] = refl
  observations-history_of z (event ∷ events) =
      let rest = observations-history_of (abstract_step im sha z event).0 events in
      rw (step-history_of z event, observe-history_of, rest) refl

  pub run-history_of :
      (z : Timeline im) (events : List Event)
      → run im sha (history_of im sha z) events ≡ history_of im sha (abstract_run im sha z events)
  unfolding run abstract_run
  run-history_of z [] = refl
  run-history_of z (event ∷ events) =
      let rest = run-history_of (abstract_step im sha z event).0 events in
      rw (step-history_of z event, rest) refl

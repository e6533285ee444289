-- ===== src/History/Timeline.antt =====
-- The abstract view of `EditorHistory`: a past, newest first, and a future, nearest first.
use stitch_editor.Prelude.{ℕ, ◌+◌, Bool, true, false, Option, none, some, List, [], ◌∷◌, length}
use stitch_editor.Prelude.Result.{Result, ok, err}
use stitch_editor.Ids.{RevisionHash, ModelError}
use stitch_editor.Crates.Im.{Im, Sha256}
use stitch_editor.Model.Command.{Command}
use stitch_editor.Model.Project.{Project, reduce}
use stitch_editor.History.{
  HistoryRevision, EditorHistory, project_or_default, hash_of, project, current_hash,
  revision_count, apply, undo, redo, revision_hash,
}
use stitch_editor.History.Onto.{onto}

pub data Timeline (im : Im) : Type 0 where
  timeline : (past future : List (HistoryRevision im)) → Timeline im

pub data Event : Type 0 where
  do_apply : Command → Event
  do_undo : Event
  do_redo : Event

pub data Outcome : Type 0 where
  applied : Result ModelError RevisionHash → Outcome
  moved : Bool → Outcome

-- What a caller sees after an event.
pub record Observation (im : Im) : Type 0 where
  pub outcome : Outcome
  pub project : Project im
  pub hash : Option RevisionHash
  pub revision_count : ℕ

abbrev pub with_outcome : {S R : Type 0} → (R → Outcome) → S × R → S × Outcome
with_outcome f (next, r) = (next, f r)

abbrev pub newest {ℓ} : {A : Type ℓ} → List A → Option A
newest [] = none
newest (r ∷ past) = some r

module _ (im : Im) (sha : Sha256) where
  -- The methods, as a caller calls them.
  unfoldable pub step : EditorHistory im → Event → EditorHistory im × Outcome
  step self (do_apply command) = with_outcome applied (apply im sha self command)
  step self do_undo = with_outcome moved (undo im sha self)
  step self do_redo = with_outcome moved (redo im sha self)

  unfoldable pub observe : EditorHistory im → Outcome → Observation im
  observe self outcome = record {
    outcome = outcome;
    project = project im sha self;
    hash = current_hash im sha self;
    revision_count = revision_count im sha self;
  }

  unfoldable pub observations : EditorHistory im → List Event → List (Observation im)
  observations self [] = []
  observations self (event ∷ events) =
      let (next, outcome) = step self event in observe next outcome ∷ observations next events

  -- The abstract machine.
  unfoldable pub apply_to :
      List (HistoryRevision im)
      → List (HistoryRevision im)
      → Command
      → Result ModelError (Project im)
      → Timeline im × Outcome
  apply_to past future command (err e) = (timeline past future, applied (err e))
  apply_to past future command (ok next) =
      let hash = revision_hash sha (hash_of im (newest past)) command in
      (timeline ((record { project = next; hash = hash }) ∷ past) [], applied (ok hash))

  unfoldable pub abstract_step : Timeline im → Event → Timeline im × Outcome
  abstract_step (timeline past future) (do_apply command) =
      apply_to past future command (reduce im (project_or_default im (newest past)) command)
  abstract_step (timeline [] future) do_undo = (timeline [] future, moved false)
  abstract_step (timeline (r ∷ past) future) do_undo = (timeline past (r ∷ future), moved true)
  abstract_step (timeline past []) do_redo = (timeline past [], moved false)
  abstract_step (timeline past (r ∷ future)) do_redo = (timeline (r ∷ past) future, moved true)

  unfoldable pub abstract_observe : Timeline im → Outcome → Observation im
  abstract_observe (timeline past future) outcome = record {
    outcome = outcome;
    project = project_or_default im (newest past);
    hash = hash_of im (newest past);
    revision_count = length past + length future;
  }

  unfoldable pub abstract_observations : Timeline im → List Event → List (Observation im)
  abstract_observations z [] = []
  abstract_observations z (event ∷ events) =
      let (next, outcome) = abstract_step z event in
      abstract_observe next outcome ∷ abstract_observations next events

  -- The vector and the cursor that stand for a timeline.
  unfoldable pub history_of : Timeline im → EditorHistory im
  history_of (timeline past future) = record { revisions = onto past future; cursor = length past }

  abbrev pub concrete : Timeline im × Outcome → EditorHistory im × Outcome
  concrete (z, outcome) = (history_of z, outcome)

  -- The state after a sequence of events.
  unfoldable pub run : EditorHistory im → List Event → EditorHistory im
  run self [] = self
  run self (event ∷ events) = run (step self event).0 events

  unfoldable pub abstract_run : Timeline im → List Event → Timeline im
  abstract_run z [] = z
  abstract_run z (event ∷ events) = abstract_run (abstract_step z event).0 events

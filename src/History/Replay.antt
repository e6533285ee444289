-- ===== src/History/Replay.antt =====
-- The revisions of crates/editor-core/src/lib.rs against a replay of commands.
use stitch_editor.Prelude.{◌≡◌, refl, sym, subst, inl, inr, Option, none, some, List, [], ◌∷◌}
use stitch_editor.Prelude.Result.{Result, ok, ◌>>=◌, Result-cases}
use stitch_editor.Ids.{RevisionHash, ModelError}
use stitch_editor.Crates.Im.{Im, Sha256}
use stitch_editor.Model.Command.{Command}
use stitch_editor.Model.Project.{Project, default, reduce}
use stitch_editor.Model.Project.Invariant.{IsWellFormed, default-IsWellFormed}
use stitch_editor.Model.Project.Reduce.{reduce-IsWellFormed}
use stitch_editor.History.{
  HistoryRevision, project_or_default, hash_of, empty_history, project, current_hash, revision_hash,
}
use stitch_editor.History.Timeline.{
  Timeline, timeline, Event, do_apply, do_undo, do_redo, newest, apply_to, abstract_step,
  abstract_run, run, history_of,
}
use stitch_editor.History.Refinement.{run-history_of, project-history_of, hash-history_of}

module _ (im : Im) (sha : Sha256) where
  -- The commands, newest first, applied to the default project, with the hash chain.
  unfoldable pub replay : List Command → Result ModelError (Project im × Option RevisionHash)
  replay [] = ok (default im, none)
  replay (command ∷ earlier) = do
    (project, parent) ← replay earlier
    next ← reduce im project command
    ok (next, some (revision_hash sha parent command))

  -- Each revision of the past comes from the one before it.
  data Made : List (HistoryRevision im) → Type 0 where
    made_none : Made []
    made_next :
        (past : List (HistoryRevision im)) (r : HistoryRevision im) (command : Command)
        → Made past
        → reduce im (project_or_default im (newest past)) command ≡ ok r.project
        → r.hash ≡ revision_hash sha (hash_of im (newest past)) command
        → Made (r ∷ past)

  AllMade : List (HistoryRevision im) → List (HistoryRevision im) → Type 0
  AllMade past [] = Made past
  AllMade past (r ∷ future) = AllMade (r ∷ past) future

  Made-before :
      (past : List (HistoryRevision im)) (r : HistoryRevision im) → Made (r ∷ past) → Made past
  Made-before past r (made_next _ _ command m e h) = m

  Made-past : (past future : List (HistoryRevision im)) → AllMade past future → Made past
  unfolding AllMade
  Made-past past [] m = m
  Made-past past (r ∷ future) m = Made-before past r (Made-past (r ∷ past) future m)

  AllMadeAt : Timeline im → Type 0
  AllMadeAt (timeline past future) = AllMade past future

  step-AllMade :
      (z : Timeline im) (event : Event) → AllMadeAt z → AllMadeAt (abstract_step im sha z event).0
  unfolding AllMadeAt AllMade abstract_step apply_to
  step-AllMade (timeline past future) (do_apply command) m =
      elim (Result-cases (reduce im (project_or_default im (newest past)) command)) [
        | inl (next, e) ↦ rw e (made_next past _ command (Made-past past future m) e refl)
        | inr (error, e) ↦ rw e m
      ]
  step-AllMade (timeline [] future) do_undo m = m
  step-AllMade (timeline (r ∷ past) future) do_undo m = m
  step-AllMade (timeline past []) do_redo m = m
  step-AllMade (timeline past (r ∷ future)) do_redo m = m

  run-AllMade :
      (z : Timeline im) (events : List Event)
      → AllMadeAt z
      → AllMadeAt (abstract_run im sha z events)
  unfolding abstract_run
  run-AllMade z [] m = m
  run-AllMade z (event ∷ events) m =
      run-AllMade (abstract_step im sha z event).0 events (step-AllMade z event m)

  replayed :
      (past : List (HistoryRevision im))
      → Made past
      → (commands : List Command) × (replay commands
          ≡ ok (project_or_default im (newest past), hash_of im (newest past)))
  unfolding replay
  replayed past made_none = ([], refl)
  replayed past (made_next before r command m e h) =
      let (commands, earlier) = replayed before m in
      (command ∷ commands, rw (earlier, ◌>>=◌, e, h) refl)

  well_formed :
      (past : List (HistoryRevision im))
      → Made past
      → IsWellFormed im (project_or_default im (newest past))
  well_formed past made_none = default-IsWellFormed im
  well_formed past (made_next before r command m e h) =
      reduce-IsWellFormed im _ (well_formed before m) command _ e

  at_past :
      (P : Project im → Option RevisionHash → Type 0)
      → ((past : List (HistoryRevision im))
          → Made past
          → P (project_or_default im (newest past)) (hash_of im (newest past)))
      → (z : Timeline im) → AllMadeAt z
      → P (project im sha (history_of im sha z)) (current_hash im sha (history_of im sha z))
  unfolding AllMadeAt
  at_past P f (timeline past future) m =
      rw (project-history_of, hash-history_of) (f past (Made-past past future m))

  run-made : (events : List Event) → AllMadeAt (abstract_run im sha (timeline [] []) events)
  unfolding AllMadeAt AllMade
  run-made events = run-AllMade (timeline [] []) events made_none

  reached :
      (P : Project im → Option RevisionHash → Type 0)
      → ((past : List (HistoryRevision im))
          → Made past
          → P (project_or_default im (newest past)) (hash_of im (newest past)))
      → (events : List Event)
      → P
          (project im sha (run im sha (empty_history im sha) events))
          (current_hash im sha (run im sha (empty_history im sha) events))
  unfolding history_of
  reached P f events =
      subst (λ h. P (project im sha h) (current_hash im sha h))
        (sym (run-history_of im sha (timeline [] []) events))
        (at_past P f (abstract_run im sha (timeline [] []) events) (run-made events))

  -- After any sequence of calls on an empty history there is a list of commands that, applied in
  -- turn to the default project, succeed and give the current project, and whose chain of hashes
  -- gives the current hash.
  pub run-replay :
      (events : List Event)
      → (commands : List Command) × (replay commands
          ≡ ok (
            project im sha (run im sha (empty_history im sha) events),
            current_hash im sha (run im sha (empty_history im sha) events),
          ))
  run-replay events =
      reached (λ p h. (commands : List Command) × (replay commands ≡ ok (p, h))) replayed events

  -- After any sequence of calls on an empty history the current project is well-formed.
  pub run-IsWellFormed :
      (events : List Event)
      → IsWellFormed im (project im sha (run im sha (empty_history im sha) events))
  run-IsWellFormed events = reached (λ p h. IsWellFormed im p) well_formed events

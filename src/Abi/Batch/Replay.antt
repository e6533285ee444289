-- ===== src/Abi/Batch/Replay.antt =====
-- The batch loop of `stitch_core_submit` against the history that it works on.
use stitch_editor.Prelude.{ap, refl, ◌∙◌, ◌↔◌, ◌≡◌, sym, subst, List, [], ◌∷◌, map}
use stitch_editor.Prelude.Result.{Result, ok, err, passed, passes}
use stitch_editor.Ids.{ModelError}
use stitch_editor.Crates.Im.{Im, Sha256}
use stitch_editor.Model.Command.{Command}
use stitch_editor.Model.Project.{Project, reduce}
use stitch_editor.History.{EditorHistory, apply, project, record_revision}
use stitch_editor.History.Timeline.{do_apply, step, run}
use stitch_editor.Abi.Types.{StitchCommand}
use stitch_editor.Abi.Convert.{command}
use stitch_editor.Abi.Batch.{kept, apply_one, apply_all}

-- The commands that the raw commands convert to.
pub data Converts : List StitchCommand → List Command → Type 0 where
  converts_nil : Converts [] []
  converts_next :
      (raw : StitchCommand) (c : Command) (raws : List StitchCommand) (cs : List Command)
      → command raw ≡ ok c
      → Converts raws cs
      → Converts (raw ∷ raws) (c ∷ cs)

module _ (im : Im) (sha : Sha256) where
  -- Each command reduces on the current project that the ones before it leave.
  unfoldable pub AllReduce : EditorHistory im → List Command → Type 0
  AllReduce self [] = Unit
  AllReduce self (c ∷ cs) =
      ((next : Project im) × (reduce im (project im sha self) c ≡ ok next))
      × AllReduce (apply im sha self c).0 cs

  kept-eq-ok :
      (self after : EditorHistory im) (c : Command) (r : Result ModelError (Project im))
      → kept im sha (record_revision im sha self c r) ≡ ok after
      → ((next : Project im) × (r ≡ ok next)) × ((record_revision im sha self c r).0 ≡ after)
  unfolding record_revision
  kept-eq-ok self after c (ok next) e = ((next, refl), cc e)
  kept-eq-ok self after c (err error) e = cc e

  kept-ok :
      (self : EditorHistory im) (c : Command) (next : Project im)
      (r : Result ModelError (Project im))
      → r ≡ ok next
      → kept im sha (record_revision im sha self c r) ≡ ok (record_revision im sha self c r).0
  unfolding record_revision
  kept-ok self c next (ok other) e = refl
  kept-ok self c next (err error) e = cc e

  apply_all-eq-ok :
      (raws : List StitchCommand) (self after : EditorHistory im)
      → apply_all im sha raws self ≡ ok after
      → (commands : List Command) × Converts raws commands
        × AllReduce self commands
        × (run im sha self (map do_apply commands) ≡ after)
  unfolding apply_all apply_one run step AllReduce apply
  apply_all-eq-ok [] self after h = ([], converts_nil, tt, cc h)
  apply_all-eq-ok (raw ∷ raws) self after h = elim (passed (apply_one im sha raw self) _ h) [
    | passes middle e r ↦ elim (passed (command raw) _ e) [
      | passes c converted k ↦
          let (reduces, same) = kept-eq-ok self middle c _ k in
          let (commands, all, rest, ends) =
            apply_all-eq-ok raws (apply im sha self c).0 after
              (subst (λ h. apply_all im sha raws h ≡ ok after) (sym same) r) in
          (c ∷ commands, converts_next raw c raws commands converted all, (reduces, rest), ends)
    ]
  ]

  apply_all-ok :
      (raws : List StitchCommand) (self : EditorHistory im) (commands : List Command)
      → Converts raws commands
      → AllReduce self commands
      → apply_all im sha raws self ≡ ok (run im sha self (map do_apply commands))
  unfolding apply_all apply_one run step AllReduce apply
  apply_all-ok _ self _ converts_nil h = refl
  apply_all-ok _ self _ (converts_next raw c raws cs converted all) ((next, reduces), rest) =
      rw (converted, kept-ok self c next (reduce im (project im sha self) c) reduces)
        (apply_all-ok raws (apply im sha self c).0 cs all rest)

  -- A batch of raw commands goes through with a history exactly where each of them converts to a
  -- command, each command reduces on the current project that the ones before it leave, and the
  -- history is the one after applying those commands in their order.
  pub apply_all-run :
      (raws : List StitchCommand) (self after : EditorHistory im)
      → (apply_all im sha raws self ≡ ok after) ↔ (
          (commands : List Command) × Converts raws commands
          × AllReduce self commands
          × (run im sha self (map do_apply commands) ≡ after))
  apply_all-run raws self after = (
    apply_all-eq-ok raws self after,
    λ x.
        let (commands, all, reduces, ends) = x in
        apply_all-ok raws self commands all reduces ∙ ap ok ends,
  )

-- ===== src/Model/Project/Reduce.antt =====
-- `reduce` on well-formed projects: its preconditions and the invariant.
use stitch_editor.Prelude.{ap, subst, ◌⊎◌, ◌≡◌, ◌↔◌, true, none, inl, inr, Option-cases}
use stitch_editor.Prelude.Result.{ok, err}
use stitch_editor.Ids.{ModelError}
use stitch_editor.Crates.Im.{Im, is_some}
use stitch_editor.Model.Command.{Command, add_asset, add_track, add_clip, move_clip, remove_clip}
use stitch_editor.Model.Project.{Project, reduce}
use stitch_editor.Model.Project.Invariant.{
  IsWellFormed, add_asset-IsWellFormed, add_track-IsWellFormed, add_clip-IsWellFormed,
}
use stitch_editor.Model.Project.Edits.{move_clip-IsWellFormed, remove_clip-IsWellFormed}
use stitch_editor.Model.Project.Steps.{
  Step, step_add_asset, step_add_track, step_add_clip, step_move_clip, step_remove_clip,
  reduce-Step, Step-reduce,
}
use stitch_editor.Model.Project.Refusals.{
  Refuses, refuses_asset, refuses_track, refuses_clip, refuses_clip_asset, refuses_clip_track,
  refuses_move, refuses_remove, Refuses-reduce,
}

module _ (im : Im) where
  open im use {get}

  -- What a command asks of the project it is applied to.
  unfoldable pub Accepts : Project im → Command → Type 0
  Accepts p (add_asset asset) = get asset.id p.assets ≡ none
  Accepts p (add_track track_id) = get track_id p.tracks ≡ none
  Accepts p (add_clip clip_id asset_id track_id timeline_range source_range) =
      (get clip_id p.clips ≡ none)
      × (is_some (get asset_id p.assets) ≡ true)
      × (is_some (get track_id p.tracks) ≡ true)
  Accepts p (move_clip clip_id timeline_range) = is_some (get clip_id p.clips) ≡ true
  Accepts p (remove_clip clip_id) = is_some (get clip_id p.clips) ≡ true

  Step-Accepts :
      (p : Project im) (command : Command) (q : Project im)
      → Step im p command q
      → Accepts p command
  unfolding Accepts
  Step-Accepts p command q (step_add_asset asset fresh) = fresh
  Step-Accepts p command q (step_add_track track_id fresh) = fresh
  Step-Accepts p command q (step_add_clip clip track fresh source home) = (fresh, source, cc home)
  Step-Accepts p command q (step_move_clip clip_id clip timeline_range found) = cc found
  Step-Accepts p command q (step_remove_clip clip_id clip track found home) = cc found

  Accepts-Step :
      (p : Project im)
      → IsWellFormed im p
      → (command : Command) → Accepts p command
      → (q : Project im) × Step im p command q
  unfolding Accepts
  Accepts-Step p w (add_asset asset) fresh = (_, step_add_asset asset fresh)
  Accepts-Step p w (add_track track_id) fresh = (_, step_add_track track_id fresh)
  Accepts-Step p w (add_clip clip_id asset_id track_id timeline_range source_range)
        (fresh, source, home) =
      elim (Option-cases (get track_id p.tracks)) [
        | inl e ↦ absurd (cc (e, home))
        | inr (track, e) ↦ (
          _,
          step_add_clip
              (record {
                id = clip_id;
                asset_id = asset_id;
                track_id = track_id;
                timeline_range = timeline_range;
                source_range = source_range;
              })
              track fresh source e,
        )
      ]
  Accepts-Step p w (move_clip clip_id timeline_range) x =
      elim (Option-cases (get clip_id p.clips)) [
        | inl e ↦ absurd (cc (e, x))
        | inr (clip, e) ↦ (_, step_move_clip clip_id clip timeline_range e)
      ]
  Accepts-Step p w (remove_clip clip_id) x = elim (Option-cases (get clip_id p.clips)) [
    | inl e ↦ absurd (cc (e, x))
    | inr (clip, e) ↦ elim (Option-cases (get clip.track_id p.tracks)) [
      | inl e2 ↦ absurd (cc (e2, w.homes clip_id clip e))
      | inr (track, e2) ↦ (_, step_remove_clip clip_id clip track e e2)
    ]
  ]

  accepted_or_refused :
      (p : Project im) (command : Command)
      → Accepts p command ⊎ ((e : ModelError) × Refuses im p command e)
  unfolding Accepts
  accepted_or_refused p (add_asset asset) = elim (Option-cases (get asset.id p.assets)) [
    | inl e ↦ inl e
    | inr (a, e) ↦ inr (_, refuses_asset asset (ap is_some e))
  ]
  accepted_or_refused p (add_track track_id) = elim (Option-cases (get track_id p.tracks)) [
    | inl e ↦ inl e
    | inr (a, e) ↦ inr (_, refuses_track track_id (ap is_some e))
  ]
  accepted_or_refused p (add_clip clip_id asset_id track_id timeline_range source_range) =
      elim (Option-cases (get clip_id p.clips)) [
        | inr (a, e) ↦ inr (_, refuses_clip clip_id _ _ _ _ (ap is_some e))
        | inl e ↦ elim (Option-cases (get asset_id p.assets)) [
          | inl e1 ↦ inr (_, refuses_clip_asset clip_id asset_id _ _ _ e e1)
          | inr (asset, e1) ↦ elim (Option-cases (get track_id p.tracks)) [
            | inl e2 ↦
                inr (_, refuses_clip_track clip_id asset_id track_id _ _ e (ap is_some e1) e2)
            | inr (track, e2) ↦ inl (e, ap is_some e1, ap is_some e2)
          ]
        ]
      ]
  accepted_or_refused p (move_clip clip_id timeline_range) =
      elim (Option-cases (get clip_id p.clips)) [
        | inl e ↦ inr (_, refuses_move clip_id timeline_range e)
        | inr (clip, e) ↦ inl (ap is_some e)
      ]
  accepted_or_refused p (remove_clip clip_id) = elim (Option-cases (get clip_id p.clips)) [
    | inl e ↦ inr (_, refuses_remove clip_id e)
    | inr (clip, e) ↦ inl (ap is_some e)
  ]

  -- On a well-formed project, a command succeeds exactly where its preconditions hold: a new id
  -- for what it adds, an asset and a track that are there for a new clip, a clip that is there to
  -- move or remove. It fails with an error exactly where that error names the first precondition
  -- that does not hold, so that no command reports the project as corrupt.
  pub reduce_iff :
      (p : Project im)
      → IsWellFormed im p
      → (command : Command)
      → (((q : Project im) × (reduce im p command ≡ ok q)) ↔ Accepts p command)
        × ((e : ModelError) → (reduce im p command ≡ err e) ↔ Refuses im p command e)
  reduce_iff p w command = (
    (
      λ x. Step-Accepts p command x.0 (reduce-Step im p command x.0 x.1),
      λ a. let (q, s) = Accepts-Step p w command a in (q, Step-reduce im p command q s),
    ),
    λ e. (
      λ h. elim (accepted_or_refused p command) [
        | inl a ↦
            let (q, s) = Accepts-Step p w command a in absurd (cc (h, Step-reduce im p command q s))
        | inr (other, r) ↦
            let same : other ≡ e = cc (h, Refuses-reduce im p command other r) in
            subst (Refuses im p command) same r
      ],
      λ r. Refuses-reduce im p command e r,
    ),
  )

  Step-IsWellFormed :
      (p : Project im)
      → IsWellFormed im p
      → (command : Command) (q : Project im) → Step im p command q
      → IsWellFormed im q
  Step-IsWellFormed p w command q (step_add_asset asset fresh) = add_asset-IsWellFormed im p w asset
  Step-IsWellFormed p w command q (step_add_track track_id fresh) =
      add_track-IsWellFormed im p w track_id fresh
  Step-IsWellFormed p w command q (step_add_clip clip track fresh source home) =
      add_clip-IsWellFormed im p w clip track fresh source home
  Step-IsWellFormed p w command q (step_move_clip clip_id clip timeline_range found) =
      move_clip-IsWellFormed im p w clip_id clip found timeline_range
  Step-IsWellFormed p w command q (step_remove_clip clip_id clip track found home) =
      remove_clip-IsWellFormed im p w clip_id clip found track home

  -- Where a command is applied to a well-formed project and succeeds, the project it gives is
  -- well-formed: values carry their keys, a track lists exactly the clips that name it and each of
  -- them once, and each clip names an asset and a track that are there.
  pub reduce-IsWellFormed :
      (p : Project im)
      → IsWellFormed im p
      → (command : Command) (q : Project im) → reduce im p command ≡ ok q
      → IsWellFormed im q
  reduce-IsWellFormed p w command q h =
      Step-IsWellFormed p w command q (reduce-Step im p command q h)

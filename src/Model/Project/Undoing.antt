-- ===== src/Model/Project/Undoing.antt =====
-- Adding and then removing a clip by `reduce`.
use stitch_editor.Prelude.{◌≡◌, refl, ap, ◌∙◌, none, some, List, [], ◌∷◌, ◌++◌, arith}
use stitch_editor.Prelude.Result.{ok}
use stitch_editor.Ids.{AssetId, TrackId, ClipId}
use stitch_editor.Time.Range.{TimeRange}
use stitch_editor.Wire.Bytes.{beq_iff, beq_refl}
use stitch_editor.Crates.Im.{Im}
use stitch_editor.Crates.MapLaws.{get_ext}
use stitch_editor.Model.Command.{add_clip, remove_clip}
use stitch_editor.Model.Project.{Track, Clip, Project, reduce, without}
use stitch_editor.Model.Project.Placement.{count, owns}
use stitch_editor.Model.Project.Invariant.{IsWellFormed}
use stitch_editor.Model.Project.Steps.{
  Step, step_add_clip, step_remove_clip, reduce-Step, Step-reduce,
}

without-snoc : (c : ClipId) (xs : List ClipId) → count c xs ≡ 0 → without c (xs ++ c ∷ []) ≡ xs
unfolding count without
without-snoc c [] h = rw (beq_refl c) refl
without-snoc c (x ∷ xs) h = (ground (arith, without-snoc c xs))

module _ (im : Im) (p : Project im) (w : IsWellFormed im p) (clip : Clip) (track : Track im)
    (fresh : im.get clip.id p.clips ≡ none)
    (home : im.get clip.track_id p.tracks ≡ some track) where
  open im use {
    get, insert, remove, push_back, from_iter, iter, get-insert, get-remove, iter-from_iter,
    iter-push_back, iter_injective,
  }

  clips-back : (remove clip.id (insert clip.id clip p.clips).0).0 ≡ p.clips
  clips-back =
      get_ext im _ _ (λ k. rw (get-remove, get-insert) (ground (arith, fresh, beq_iff clip.id k)))

  order-back :
      from_iter (without clip.id (iter (push_back track.clip_ids clip.id))) ≡ track.clip_ids
  order-back = iter_injective _ _ (
      rw (iter-from_iter, iter-push_back)
        (without-snoc clip.id (iter track.clip_ids)
          (w.placed clip.track_id clip.id track home ∙ ap (owns clip.track_id) fresh)))

  abbrev longer : Track im
  longer = record track { clip_ids = push_back track.clip_ids clip.id }

  tracks-back :
      (insert clip.track_id
        (record longer { clip_ids = from_iter (without clip.id (iter longer.clip_ids)) })
        (insert clip.track_id longer p.tracks).0).0
      ≡ p.tracks
  tracks-back =
      get_ext im _ _ (λ k.
        rw (get-insert, get-insert, order-back) (ground (arith, home, beq_iff clip.track_id k)))

  removed :
      reduce im
        (record p {
          tracks = (insert clip.track_id longer p.tracks).0;
          clips = (insert clip.id clip p.clips).0;
        })
        (remove_clip clip.id)
      ≡ ok p
  removed =
      Step-reduce im _ (remove_clip clip.id) _ (
        step_remove_clip clip.id clip longer (rw (get-insert, beq_refl) refl)
          (rw (get-insert, beq_refl) refl))
      ∙ (λ i. ok (record p { tracks = tracks-back i; clips = clips-back i }))

module _ (im : Im) where
  Step-remove :
      (p : Project im)
      → IsWellFormed im p
      → (clip_id : ClipId) (asset_id : AssetId) (track_id : TrackId)
        (timeline_range source_range : TimeRange) (q : Project im)
      → Step im p (add_clip clip_id asset_id track_id timeline_range source_range) q
      → reduce im q (remove_clip clip_id) ≡ ok p
  Step-remove p w clip_id asset_id track_id timeline_range source_range q
        (step_add_clip clip track fresh source home) =
      removed im p w clip track fresh home

  -- On a well-formed project, removing a clip right after it was added succeeds and gives the
  -- project back.
  pub remove_clip-add_clip :
      (p : Project im)
      → IsWellFormed im p
      → (clip_id : ClipId) (asset_id : AssetId) (track_id : TrackId)
        (timeline_range source_range : TimeRange) (q : Project im)
      → reduce im p (add_clip clip_id asset_id track_id timeline_range source_range) ≡ ok q
      → reduce im q (remove_clip clip_id) ≡ ok p
  remove_clip-add_clip p w clip_id asset_id track_id timeline_range source_range q h =
      Step-remove p w clip_id asset_id track_id timeline_range source_range q
        (reduce-Step im p (add_clip clip_id asset_id track_id timeline_range source_range) q h)

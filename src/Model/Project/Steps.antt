-- ===== src/Model/Project/Steps.antt =====
-- `reduce` as a step relation: a constructor for each command, with what it asks of the project
-- and what it makes of it.
use stitch_editor.Prelude.{◌≡◌, refl, subst, true, not, none, some, arith}
use stitch_editor.Prelude.Result.{ok, fail_if, ok_or, ok_or-eq-ok, passed, passes}
use stitch_editor.Ids.{
  TrackId, ClipId, duplicate_asset, missing_asset, duplicate_track, missing_track, duplicate_clip,
  missing_clip, corrupt_project,
}
use stitch_editor.Time.Range.{TimeRange}
use stitch_editor.Crates.Im.{Im, is_some}
use stitch_editor.Model.Command.{
  Asset, Command, add_asset, add_track, add_clip, move_clip, remove_clip,
}
use stitch_editor.Model.Project.{
  Track, Clip, Project, without, reduce, reduce_add_asset, reduce_add_track, reduce_add_clip,
  reduce_move_clip, reduce_remove_clip,
}

pub data Step (im : Im) (p : Project im) : Command → Project im → Type 0 where
  step_add_asset :
      (asset : Asset)
      → im.get asset.id p.assets ≡ none
      → Step im p (add_asset asset) (record p { assets = (im.insert asset.id asset p.assets).0 })
  step_add_track :
      (track_id : TrackId)
      → im.get track_id p.tracks ≡ none
      → Step im p (add_track track_id) (record p {
        tracks =
            (im.insert track_id (record { id = track_id; clip_ids = im.vector_new }) p.tracks).0;
      })
  step_add_clip :
      (clip : Clip) (track : Track im)
      → im.get clip.id p.clips ≡ none
      → is_some (im.get clip.asset_id p.assets) ≡ true
      → im.get clip.track_id p.tracks ≡ some track
      → Step im p
          (add_clip clip.id clip.asset_id clip.track_id clip.timeline_range clip.source_range)
          (record p {
            tracks =
                (im.insert clip.track_id
                  (record track { clip_ids = im.push_back track.clip_ids clip.id })
                  p.tracks).0;
            clips = (im.insert clip.id clip p.clips).0;
          })
  step_move_clip :
      (clip_id : ClipId) (clip : Clip) (timeline_range : TimeRange)
      → im.get clip_id p.clips ≡ some clip
      → Step im p (move_clip clip_id timeline_range) (record p {
        clips = (im.insert clip_id (record clip { timeline_range = timeline_range }) p.clips).0;
      })
  step_remove_clip :
      (clip_id : ClipId) (clip : Clip) (track : Track im)
      → im.get clip_id p.clips ≡ some clip
      → im.get clip.track_id p.tracks ≡ some track
      → Step im p (remove_clip clip_id) (record p {
        tracks =
            (im.insert clip.track_id
              (record track { clip_ids = im.from_iter (without clip_id (im.iter track.clip_ids)) })
              p.tracks).0;
        clips = (im.remove clip_id p.clips).0;
      })

module _ (im : Im) where
  open im use {get, contains_key, contains_key-get}

  pub reduce-Step :
      (p : Project im) (command : Command) (q : Project im)
      → reduce im p command ≡ ok q
      → Step im p command q
  unfolding reduce reduce_add_asset reduce_add_track reduce_add_clip reduce_move_clip
      reduce_remove_clip
  reduce-Step p (add_asset asset) q h =
      elim (passed (fail_if (contains_key asset.id p.assets) (duplicate_asset asset.id)) _ h) [
        | passes u e r ↦
            subst (Step im p (add_asset asset)) (cc r)
              (step_add_asset asset (ground (arith, contains_key-get asset.id p.assets)))
      ]
  reduce-Step p (add_track track_id) q h =
      elim (passed (fail_if (contains_key track_id p.tracks) (duplicate_track track_id)) _ h) [
        | passes u e r ↦
            subst (Step im p (add_track track_id)) (cc r)
              (step_add_track track_id (ground (arith, contains_key-get track_id p.tracks)))
      ]
  reduce-Step p (add_clip clip_id asset_id track_id timeline_range source_range) q h =
      elim (passed (fail_if (contains_key clip_id p.clips) (duplicate_clip clip_id)) _ h) [
        | passes u e r ↦
            elim (passed (fail_if (not (contains_key asset_id p.assets)) (missing_asset asset_id)) _
              r) [
                | passes u e1 r1 ↦
                    elim (passed (ok_or (get track_id p.tracks) (missing_track track_id)) _ r1) [
                      | passes track e2 r2 ↦
                          subst
                            (Step im p
                              (add_clip clip_id asset_id track_id timeline_range source_range))
                            (cc r2)
                            (step_add_clip
                              (record {
                                id = clip_id;
                                asset_id = asset_id;
                                track_id = track_id;
                                timeline_range = timeline_range;
                                source_range = source_range;
                              })
                              track (ground (arith, contains_key-get clip_id p.clips))
                              (ground (arith, contains_key-get asset_id p.assets))
                              (ok_or-eq-ok _ _ e2))
                    ]
              ]
      ]
  reduce-Step p (move_clip clip_id timeline_range) q h =
      elim (passed (ok_or (get clip_id p.clips) (missing_clip clip_id)) _ h) [
        | passes clip e r ↦
            subst (Step im p (move_clip clip_id timeline_range)) (cc r)
              (step_move_clip clip_id clip timeline_range (ok_or-eq-ok _ _ e))
      ]
  reduce-Step p (remove_clip clip_id) q h =
      elim (passed (ok_or (get clip_id p.clips) (missing_clip clip_id)) _ h) [
        | passes clip e r ↦ elim (passed (ok_or (get clip.track_id p.tracks) corrupt_project) _ r) [
          | passes track e2 r2 ↦
              subst (Step im p (remove_clip clip_id)) (cc r2)
                (step_remove_clip clip_id clip track (ok_or-eq-ok _ _ e) (ok_or-eq-ok _ _ e2))
        ]
      ]

  pub Step-reduce :
      (p : Project im) (command : Command) (q : Project im)
      → Step im p command q
      → reduce im p command ≡ ok q
  unfolding reduce reduce_add_asset reduce_add_track reduce_add_clip reduce_move_clip
      reduce_remove_clip
  Step-reduce p command q (step_add_asset asset fresh) = rw (contains_key-get, fresh) refl
  Step-reduce p command q (step_add_track track_id fresh) = rw (contains_key-get, fresh) refl
  Step-reduce p command q (step_add_clip clip track fresh source home) =
      rw (contains_key-get, contains_key-get, fresh, source, home) refl
  Step-reduce p command q (step_move_clip clip_id clip timeline_range found) = rw found refl
  Step-reduce p command q (step_remove_clip clip_id clip track found home) = rw (found, home) refl

-- ===== src/Model/Project/Refusals.antt =====
-- The errors of `reduce` of crates/contracts/src/lib.rs as a relation: a constructor for each
-- precondition that may not hold.
use stitch_editor.Prelude.{◌≡◌, refl, true, none}
use stitch_editor.Prelude.Result.{err}
use stitch_editor.Ids.{
  AssetId, TrackId, ClipId, ModelError, duplicate_asset, missing_asset, duplicate_track,
  missing_track, duplicate_clip, missing_clip,
}
use stitch_editor.Time.Range.{TimeRange}
use stitch_editor.Crates.Im.{Im, is_some}
use stitch_editor.Model.Command.{
  Asset, Command, add_asset, add_track, add_clip, move_clip, remove_clip,
}
use stitch_editor.Model.Project.{
  Project, reduce, reduce_add_asset, reduce_add_track, reduce_add_clip, reduce_move_clip,
  reduce_remove_clip,
}

pub data Refuses (im : Im) (p : Project im) : Command → ModelError → Type 0 where
  refuses_asset :
      (asset : Asset)
      → is_some (im.get asset.id p.assets) ≡ true
      → Refuses im p (add_asset asset) (duplicate_asset asset.id)
  refuses_track :
      (track_id : TrackId)
      → is_some (im.get track_id p.tracks) ≡ true
      → Refuses im p (add_track track_id) (duplicate_track track_id)
  refuses_clip :
      (clip_id : ClipId) (asset_id : AssetId) (track_id : TrackId)
      (timeline_range source_range : TimeRange)
      → is_some (im.get clip_id p.clips) ≡ true
      → Refuses im p
          (add_clip clip_id asset_id track_id timeline_range source_range)
          (duplicate_clip clip_id)
  refuses_clip_asset :
      (clip_id : ClipId) (asset_id : AssetId) (track_id : TrackId)
      (timeline_range source_range : TimeRange)
      → im.get clip_id p.clips ≡ none
      → im.get asset_id p.assets ≡ none
      → Refuses im p
          (add_clip clip_id asset_id track_id timeline_range source_range)
          (missing_asset asset_id)
  refuses_clip_track :
      (clip_id : ClipId) (asset_id : AssetId) (track_id : TrackId)
      (timeline_range source_range : TimeRange)
      → im.get clip_id p.clips ≡ none
      → is_some (im.get asset_id p.assets) ≡ true
      → im.get track_id p.tracks ≡ none
      → Refuses im p
          (add_clip clip_id asset_id track_id timeline_range source_range)
          (missing_track track_id)
  refuses_move :
      (clip_id : ClipId) (timeline_range : TimeRange)
      → im.get clip_id p.clips ≡ none
      → Refuses im p (move_clip clip_id timeline_range) (missing_clip clip_id)
  refuses_remove :
      (clip_id : ClipId)
      → im.get clip_id p.clips ≡ none
      → Refuses im p (remove_clip clip_id) (missing_clip clip_id)

module _ (im : Im) where
  open im use {contains_key-get}

  pub Refuses-reduce :
      (p : Project im) (command : Command) (e : ModelError)
      → Refuses im p command e
      → reduce im p command ≡ err e
  unfolding reduce reduce_add_asset reduce_add_track reduce_add_clip reduce_move_clip
      reduce_remove_clip
  Refuses-reduce p command e (refuses_asset asset there) = rw (contains_key-get, there) refl
  Refuses-reduce p command e (refuses_track track_id there) = rw (contains_key-get, there) refl
  Refuses-reduce p command e
        (refuses_clip clip_id asset_id track_id timeline_range source_range there) =
      rw (contains_key-get, there) refl
  Refuses-reduce p command e
        (refuses_clip_asset clip_id asset_id track_id timeline_range source_range fresh missing) =
      rw (contains_key-get, contains_key-get, fresh, missing) refl
  Refuses-reduce p command e
        (refuses_clip_track clip_id asset_id track_id timeline_range source_range fresh there
          missing) =
      rw (contains_key-get, contains_key-get, fresh, there, missing) refl
  Refuses-reduce p command e (refuses_move clip_id timeline_range missing) = rw missing refl
  Refuses-reduce p command e (refuses_remove clip_id missing) = rw missing refl

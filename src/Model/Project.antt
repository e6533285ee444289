-- ===== src/Model/Project.antt =====
-- `Project` of crates/contracts/src/lib.rs and `reduce`, over the `im` collections.
pub mod Placement
pub mod Invariant
pub mod Edits
pub mod Steps
pub mod Refusals
pub mod Undoing
pub mod View
pub mod Encode
pub mod Decode
pub mod Validate
pub mod Reduce
use stitch_editor.Prelude.{ℕ, Bool, true, false, not, Option, List, [], ◌∷◌, if◌then◌else◌}
use stitch_editor.Prelude.Result.{Result, ok, err, ◌>>=◌, ◌>>◌, fail_if, ok_or}
use stitch_editor.Ids.{
  AssetId, TrackId, ClipId, ModelError, duplicate_asset, missing_asset, duplicate_track,
  missing_track, duplicate_clip, missing_clip, corrupt_project,
}
use stitch_editor.Time.Range.{TimeRange}
use stitch_editor.Wire.Bytes.{Bytes, beq}
use stitch_editor.Crates.Im.{Im}
use stitch_editor.Model.Command.{
  Asset, Command, add_asset, add_track, add_clip, move_clip, remove_clip, contract_schema_version,
}

pub record Track (im : Im) : Type 0 where
  pub id : TrackId
  pub clip_ids : im.Vector ClipId

pub record Clip : Type 0 where
  pub id : ClipId
  pub asset_id : AssetId
  pub track_id : TrackId
  pub timeline_range : TimeRange
  pub source_range : TimeRange

pub record Project (im : Im) : Type 0 where
  pub schema_version : ℕ
  pub assets : im.Map Asset
  pub tracks : im.Map (Track im)
  pub clips : im.Map Clip

-- `.filter(|entry| entry != clip_id)`
unfoldable pub without : ClipId → List ClipId → List ClipId
without clip_id [] = []
without clip_id (entry ∷ rest) =
    if beq entry clip_id then without clip_id rest else entry ∷ without clip_id rest

module _ (im : Im) where
  open im use {
    get, contains_key, insert, remove, len, empty, vector_new, push_back, from_iter, iter,
  }

  -- `Project::default`
  unfoldable pub default : Project im
  default = record {
    schema_version = contract_schema_version;
    assets = empty;
    tracks = empty;
    clips = empty;
  }

  -- The accessors.
  unfoldable pub track : Project im → TrackId → Option (Track im)
  track self track_id = get track_id self.tracks

  unfoldable pub asset : Project im → AssetId → Option Asset
  asset self asset_id = get asset_id self.assets

  unfoldable pub clip : Project im → ClipId → Option Clip
  clip self clip_id = get clip_id self.clips

  unfoldable pub asset_count : Project im → ℕ
  asset_count self = len self.assets

  unfoldable pub track_count : Project im → ℕ
  track_count self = len self.tracks

  unfoldable pub clip_count : Project im → ℕ
  clip_count self = len self.clips

  -- The branches of `reduce`, on the copy `next` of the project.
  unfoldable pub reduce_add_asset : Project im → Asset → Result ModelError (Project im)
  reduce_add_asset next asset = do
    fail_if (contains_key asset.id next.assets) (duplicate_asset asset.id)
    ok (record next { assets = (insert asset.id asset next.assets).0 })

  unfoldable pub reduce_add_track : Project im → TrackId → Result ModelError (Project im)
  reduce_add_track next track_id = do
    fail_if (contains_key track_id next.tracks) (duplicate_track track_id)
    ok (record next {
      tracks = (insert track_id (record { id = track_id; clip_ids = vector_new }) next.tracks).0;
    })

  unfoldable pub reduce_add_clip : Project im → Clip → Result ModelError (Project im)
  reduce_add_clip next clip = do
    fail_if (contains_key clip.id next.clips) (duplicate_clip clip.id)
    fail_if (not (contains_key clip.asset_id next.assets)) (missing_asset clip.asset_id)
    track ← ok_or (get clip.track_id next.tracks) (missing_track clip.track_id)
    ok (record next {
      tracks =
          (insert clip.track_id (record track { clip_ids = push_back track.clip_ids clip.id })
            next.tracks).0;
      clips = (insert clip.id clip next.clips).0;
    })

  unfoldable pub reduce_move_clip : Project im → ClipId → TimeRange → Result ModelError (Project im)
  reduce_move_clip next clip_id timeline_range = do
    clip ← ok_or (get clip_id next.clips) (missing_clip clip_id)
    ok (record next {
      clips = (insert clip_id (record clip { timeline_range = timeline_range }) next.clips).0;
    })

  unfoldable pub reduce_remove_clip : Project im → ClipId → Result ModelError (Project im)
  reduce_remove_clip next clip_id = do
    clip ← ok_or (get clip_id next.clips) (missing_clip clip_id)
    track ← ok_or (get clip.track_id next.tracks) corrupt_project
    ok (record next {
      tracks =
          (insert clip.track_id
            (record track { clip_ids = from_iter (without clip_id (iter track.clip_ids)) })
            next.tracks).0;
      clips = (remove clip_id next.clips).0;
    })

  unfoldable pub reduce : Project im → Command → Result ModelError (Project im)
  reduce project (add_asset asset) = reduce_add_asset project asset
  reduce project (add_track track_id) = reduce_add_track project track_id
  reduce project (add_clip clip_id asset_id track_id timeline_range source_range) =
      reduce_add_clip project (record {
        id = clip_id;
        asset_id = asset_id;
        track_id = track_id;
        timeline_range = timeline_range;
        source_range = source_range;
      })
  reduce project (move_clip clip_id timeline_range) =
      reduce_move_clip project clip_id timeline_range
  reduce project (remove_clip clip_id) = reduce_remove_clip project clip_id

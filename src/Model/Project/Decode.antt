-- ===== src/Model/Project/Decode.antt =====
-- The reading of a project in `Project::from_canonical_bytes` of crates/contracts/src/lib.rs.
use stitch_editor.Prelude.{ℕ, zero, suc, Option, none, some}
use stitch_editor.Prelude.Result.{Result, ok, err}
use stitch_editor.Ids.{ClipId, ModelError, corrupt_project}
use stitch_editor.Wire.Reader.{
  M, ◌>>=◌, ◌>>◌, return, lift, new, expect, array, u32, count, time_range,
}
use stitch_editor.Crates.Im.{Im}
use stitch_editor.Model.Command.{Asset, read_asset, check_version, contract_schema_version}
use stitch_editor.Model.Project.{Track, Clip, Project}
use stitch_editor.Model.Project.Encode.{project_magic}

abbrev pub unless_old : {V : Type 0} {M : Type 0} → M × Option V → Result ModelError M
unless_old (map, none) = ok map
unless_old (map, some old) = err corrupt_project

module _ (im : Im) where
  open im use {
    Map, get, contains_key, insert, len, empty, entries, Vector, vector_new, push_back, iter,
  }

  -- The three loops: `count` entries read and inserted, a key that repeats being corrupt.
  unfoldable pub read_assets : ℕ → Map Asset → M (Map Asset)
  read_assets zero assets = return assets
  read_assets (suc count) assets = do
    asset ← read_asset
    more ← lift (unless_old (insert asset.id asset assets))
    read_assets count more

  unfoldable pub read_clip_ids : ℕ → Vector ClipId → M (Vector ClipId)
  read_clip_ids zero clip_ids = return clip_ids
  read_clip_ids (suc count) clip_ids = do
    clip_id ← array 16
    read_clip_ids count (push_back clip_ids clip_id)

  unfoldable pub read_tracks : ℕ → Map (Track im) → M (Map (Track im))
  read_tracks zero tracks = return tracks
  read_tracks (suc count) tracks = do
    id ← array 16
    clip_count ← stitch_editor.Wire.Reader.count
    clip_ids ← read_clip_ids clip_count vector_new
    more ← lift (unless_old (insert id (record { id = id; clip_ids = clip_ids }) tracks))
    read_tracks count more

  unfoldable pub read_clip : M Clip
  read_clip = do
    id ← array 16
    asset_id ← array 16
    track_id ← array 16
    timeline_range ← time_range
    source_range ← time_range
    return (record {
      id = id;
      asset_id = asset_id;
      track_id = track_id;
      timeline_range = timeline_range;
      source_range = source_range;
    })

  unfoldable pub read_clips : ℕ → Map Clip → M (Map Clip)
  read_clips zero clips = return clips
  read_clips (suc count) clips = do
    clip ← read_clip
    more ← lift (unless_old (insert clip.id clip clips))
    read_clips count more

  unfoldable pub read_project : M (Project im)
  read_project = do
    expect project_magic
    version ← u32
    check_version version
    asset_count ← count
    assets ← read_assets asset_count empty
    track_count ← count
    tracks ← read_tracks track_count empty
    clip_count ← count
    clips ← read_clips clip_count empty
    return (record {
      schema_version = contract_schema_version;
      assets = assets;
      tracks = tracks;
      clips = clips;
    })

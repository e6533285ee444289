-- ===== src/Model/Project/Validate.antt =====
-- `Project::validate` and `Project::from_canonical_bytes` of crates/contracts/src/lib.rs.
use stitch_editor.Prelude.{Bool, false, not, ◌||◌, List, [], ◌∷◌, length, ◌==◌}
use stitch_editor.Prelude.Result.{Result, ok, ◌>>=◌, ◌>>◌, fail_if, ok_or}
use stitch_editor.Ids.{TrackId, ClipId, ModelError, corrupt_project}
use stitch_editor.Wire.Bytes.{Bytes, beq}
use stitch_editor.Wire.Reader.{new}
use stitch_editor.Crates.Im.{Im}
use stitch_editor.Model.Command.{finished}
use stitch_editor.Model.Project.{Track, Clip, Project}
use stitch_editor.Model.Project.Decode.{read_project}

-- Whether `BTreeSet::insert` finds the clip among those listed so far.
unfoldable pub listed : ClipId → List ClipId → Bool
listed clip_id [] = false
listed clip_id (entry ∷ rest) = beq entry clip_id || listed clip_id rest

module _ (im : Im) where
  open im use {get, contains_key, len, entries, iter}

  -- The loop over the clips of a track; it gives the clips listed so far.
  unfoldable pub validate_clip_ids :
      Project im → TrackId → List ClipId → List ClipId → Result ModelError (List ClipId)
  validate_clip_ids self track_id [] listed_clips = ok listed_clips
  validate_clip_ids self track_id (clip_id ∷ rest) listed_clips = do
    fail_if (listed clip_id listed_clips) corrupt_project
    clip ← ok_or (get clip_id self.clips) corrupt_project
    fail_if (not (beq clip.track_id track_id)) corrupt_project
    validate_clip_ids self track_id rest (clip_id ∷ listed_clips)

  -- The loop over the tracks.
  unfoldable pub validate_tracks :
      Project im → List (Bytes × Track im) → List ClipId → Result ModelError (List ClipId)
  validate_tracks self [] listed_clips = ok listed_clips
  validate_tracks self ((track_id, track) ∷ rest) listed_clips = do
    fail_if (not (beq track.id track_id)) corrupt_project
    more ← validate_clip_ids self track_id (iter track.clip_ids) listed_clips
    validate_tracks self rest more

  -- The loop over the clips.
  unfoldable pub validate_clips : Project im → List (Bytes × Clip) → Result ModelError (Unit {0})
  validate_clips self [] = ok tt
  validate_clips self ((clip_id, clip) ∷ rest) = do
    fail_if
        (not (contains_key clip.asset_id self.assets)
          || not (contains_key clip.track_id self.tracks))
        corrupt_project
    validate_clips self rest

  unfoldable pub validate : Project im → Result ModelError (Unit {0})
  validate self = do
    listed_clips ← validate_tracks self (entries self.tracks) []
    fail_if (not (length listed_clips == len self.clips)) corrupt_project
    validate_clips self (entries self.clips)

  -- `Project::from_canonical_bytes`
  unfoldable pub project_from_canonical_bytes : Bytes → Result ModelError (Project im)
  project_from_canonical_bytes bytes = do
    project ← finished (read_project im (new bytes))
    validate project
    ok project

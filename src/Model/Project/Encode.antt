-- ===== src/Model/Project/Encode.antt =====
-- `Project::canonical_bytes` and `Project::semantic_digest` of crates/contracts/src/lib.rs.
use stitch_editor.Prelude.{List, [], ◌∷◌, ◌++◌, length}
use stitch_editor.Ids.{ClipId, ProjectDigest}
use stitch_editor.Wire.Bytes.{Bytes}
use stitch_editor.Wire.Encode.{write_u32, write_u64, range_bytes}
use stitch_editor.Crates.Im.{Im, Sha256}
use stitch_editor.Model.Command.{asset_bytes}
use stitch_editor.Model.Project.{Track, Clip, Project}

-- "STITCH-PROJECT\0"
abbrev pub project_magic : Bytes
project_magic =
    b'S' ∷ b'T' ∷ b'I' ∷ b'T' ∷ b'C' ∷ b'H' ∷ b'-' ∷ b'P' ∷ b'R' ∷ b'O' ∷ b'J' ∷ b'E' ∷ b'C' ∷ b'T'
    ∷ 0 ∷ []

-- A loop over the values of a map, in the order of the keys.
abbrev pub concat_values : {V : Type 0} → (V → Bytes) → List (Bytes × V) → Bytes
concat_values f [] = []
concat_values f ((k, v) ∷ rest) = f v ++ concat_values f rest

abbrev pub concat_ids : List ClipId → Bytes
concat_ids [] = []
concat_ids (clip_id ∷ rest) = clip_id ++ concat_ids rest

unfoldable pub clip_bytes : Clip → Bytes
clip_bytes clip =
    clip.id
    ++ (clip.asset_id
        ++ (clip.track_id ++ (range_bytes clip.timeline_range ++ range_bytes clip.source_range)))

module _ (im : Im) where
  open im use {len, entries, iter}

  unfoldable pub track_bytes : Track im → Bytes
  track_bytes track =
      track.id ++ (write_u64 (length (iter track.clip_ids)) ++ concat_ids (iter track.clip_ids))

  -- `Project::canonical_bytes`
  unfoldable pub project_bytes : Project im → Bytes
  project_bytes self =
      project_magic
      ++ (write_u32 self.schema_version
          ++ ((write_u64 (len self.assets) ++ concat_values asset_bytes (entries self.assets))
              ++ ((write_u64 (len self.tracks) ++ concat_values track_bytes (entries self.tracks))
                  ++ (write_u64 (len self.clips)
                      ++ concat_values clip_bytes (entries self.clips)))))

  unfoldable pub semantic_digest : Sha256 → Project im → ProjectDigest
  semantic_digest sha self = sha.digest (project_bytes self)

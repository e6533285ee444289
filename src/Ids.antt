-- ===== src/Ids.antt =====
-- The identifiers and the errors of the project model, crates/contracts/src/lib.rs.
-- The newtypes over `[u8; 16]` and `[u8; 32]` are byte strings here.
use stitch_editor.Wire.Bytes.{Bytes}

abbrev pub AssetId : Type 0
AssetId = Bytes

abbrev pub TrackId : Type 0
TrackId = Bytes

abbrev pub ClipId : Type 0
ClipId = Bytes

abbrev pub RevisionHash : Type 0
RevisionHash = Bytes

abbrev pub ProjectDigest : Type 0
ProjectDigest = Bytes

pub data ModelError : Type 0 where
  duplicate_asset : AssetId → ModelError
  missing_asset : AssetId → ModelError
  duplicate_track : TrackId → ModelError
  missing_track : TrackId → ModelError
  duplicate_clip : ClipId → ModelError
  missing_clip : ClipId → ModelError
  corrupt_project : ModelError

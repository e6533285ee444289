-- ===== src/Model/Command.antt =====
-- `Command` of crates/contracts/src/lib.rs and its canonical bytes.
pub mod RoundTrip
pub mod PrefixFree
pub mod Scaled
use stitch_editor.Prelude.{ℕ, ◌^◌, ◌<◌, Bool, List, [], ◌∷◌, ◌++◌, ◌==◌, if◌then◌else◌}
use stitch_editor.Prelude.Result.{Result, ok, err}
use stitch_editor.Ids.{AssetId, TrackId, ClipId, ModelError, corrupt_project}
use stitch_editor.Time.Range.{TimeRange, IsRange}
use stitch_editor.Wire.Bytes.{Bytes, IsArray, be_bytes}
use stitch_editor.Wire.Encode.{write_u32, range_bytes}
use stitch_editor.Wire.Reader.{
  Reader, M, ◌>>=◌, ◌>>◌, return, lift, new, expect, array, u32, u64, byte, time_range, finish,
}

pub record AssetIdentity : Type 0 where
  pub content_sha256 : Bytes
  pub byte_length : ℕ
  pub provider_id : Bytes

pub record Asset : Type 0 where
  pub id : AssetId
  pub identity : AssetIdentity

pub data Command : Type 0 where
  add_asset : Asset → Command
  add_track : TrackId → Command
  add_clip : ClipId → AssetId → TrackId → TimeRange → TimeRange → Command
  move_clip : ClipId → TimeRange → Command
  remove_clip : ClipId → Command

abbrev pub contract_schema_version : ℕ
contract_schema_version = 1

-- "STITCH-COMMAND\0"
abbrev pub command_magic : Bytes
command_magic =
    b'S' ∷ b'T' ∷ b'I' ∷ b'T' ∷ b'C' ∷ b'H' ∷ b'-' ∷ b'C' ∷ b'O' ∷ b'M' ∷ b'M' ∷ b'A' ∷ b'N' ∷ b'D'
    ∷ 0 ∷ []

unfoldable pub asset_bytes : Asset → Bytes
asset_bytes asset =
    asset.id
    ++ (asset.identity.content_sha256
        ++ (be_bytes 8 asset.identity.byte_length ++ asset.identity.provider_id))

-- The tag and the fields of a command.
unfoldable pub command_body : Command → Bytes
command_body (add_asset asset) = 1 ∷ asset_bytes asset
command_body (add_track track_id) = 2 ∷ track_id
command_body (add_clip clip_id asset_id track_id timeline_range source_range) =
    3
    ∷ (clip_id
        ++ (asset_id ++ (track_id ++ (range_bytes timeline_range ++ range_bytes source_range))))
command_body (move_clip clip_id timeline_range) = 4 ∷ (clip_id ++ range_bytes timeline_range)
command_body (remove_clip clip_id) = 5 ∷ clip_id

-- `Command::canonical_bytes`
unfoldable pub canonical_bytes : Command → Bytes
canonical_bytes self = command_magic ++ (write_u32 contract_schema_version ++ command_body self)

unfoldable pub read_asset : M Asset
read_asset = do
  id ← array 16
  content_sha256 ← array 32
  byte_length ← u64
  provider_id ← array 16
  return (record {
    id = id;
    identity = record {
      content_sha256 = content_sha256;
      byte_length = byte_length;
      provider_id = provider_id;
    };
  })

unfoldable pub read_add_clip : M Command
read_add_clip = do
  clip_id ← array 16
  asset_id ← array 16
  track_id ← array 16
  timeline_range ← time_range
  source_range ← time_range
  return (add_clip clip_id asset_id track_id timeline_range source_range)

-- The match on the tag.
unfoldable pub read_body : ℕ → M Command
read_body tag =
    if tag == 1
    then (read_asset >>= λ asset. return (add_asset asset))
    else if tag == 2
    then (array 16 >>= λ track_id. return (add_track track_id))
    else if tag == 3
    then read_add_clip
    else if tag == 4
    then (array 16 >>= λ clip_id.
        time_range >>= λ timeline_range. return (move_clip clip_id timeline_range))
    else if tag == 5
    then (array 16 >>= λ clip_id. return (remove_clip clip_id))
    else lift (err corrupt_project)

-- `if reader.u32()? != CONTRACT_SCHEMA_VERSION { return Err(..) }`
abbrev pub check_version : ℕ → M (Unit {0})
check_version version =
    if version == contract_schema_version then return tt else lift (err corrupt_project)

unfoldable pub read_command : M Command
read_command = do
  expect command_magic
  version ← u32
  check_version version
  tag ← byte
  read_body tag

-- `reader.finish()?; Ok(value)`
abbrev pub finished {ℓ} : {A : Type ℓ} → Result ModelError (A × Reader) → Result ModelError A
finished (ok (a, reader)) = elim (finish reader) [ ok _ ↦ ok a | err e ↦ err e ]
finished (err e) = err e

-- `Command::from_canonical_bytes`
unfoldable pub from_canonical_bytes : Bytes → Result ModelError Command
from_canonical_bytes bytes = finished (read_command (new bytes))

-- The values that the Rust types hold.
pub record IsAsset (asset : Asset) : Type 0 where
  pub id_array : IsArray 16 asset.id
  pub content_array : IsArray 32 asset.identity.content_sha256
  pub length_fits : asset.identity.byte_length < 256 ^ 8
  pub provider_array : IsArray 16 asset.identity.provider_id

abbrev pub IsCommand : Command → Type 0
IsCommand (add_asset asset) = IsAsset asset
IsCommand (add_track track_id) = IsArray 16 track_id
IsCommand (add_clip clip_id asset_id track_id timeline_range source_range) =
    IsArray 16 clip_id
    × IsArray 16 asset_id
    × IsArray 16 track_id
    × IsRange timeline_range
    × IsRange source_range
IsCommand (move_clip clip_id timeline_range) = IsArray 16 clip_id × IsRange timeline_range
IsCommand (remove_clip clip_id) = IsArray 16 clip_id

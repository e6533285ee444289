-- ===== src/Abi/Types.antt =====
-- The structs and enums of native/c-abi/rust/src/lib.rs.
use stitch_editor.Prelude.{ℕ, Bool, Option, List, ◌==◌}
use stitch_editor.Prelude.Int.{ℤ}
use stitch_editor.Wire.Bytes.{Bytes}

pub record StitchHeader : Type 0 where
  pub struct_size : ℕ
  pub version : ℕ

-- `[u8; 32]` and `[u8; 16]`.
abbrev pub StitchDigest : Type 0
StitchDigest = Bytes

abbrev pub StitchId : Type 0
StitchId = Bytes

pub record StitchRational : Type 0 where
  pub numerator : ℤ
  pub denominator : ℤ

pub record StitchTimeRange : Type 0 where
  pub start : StitchRational
  pub end : StitchRational

pub data StitchResult : Type 0 where
  success : StitchResult
  invalid_argument : StitchResult
  unsupported_version : StitchResult
  unknown_handle : StitchResult
  malformed_struct : StitchResult
  bad_enum : StitchResult
  bad_rational : StitchResult
  invalid_batch : StitchResult
  stale_revision : StitchResult
  stale_epoch : StitchResult
  stale_device : StitchResult
  bad_lease_state : StitchResult
  reentrant_mutation : StitchResult
  model_error : StitchResult

-- `result as u64`
unfoldable pub code : StitchResult → ℕ
code success = 0
code invalid_argument = 1
code unsupported_version = 2
code unknown_handle = 3
code malformed_struct = 4
code bad_enum = 5
code bad_rational = 6
code invalid_batch = 7
code stale_revision = 8
code stale_epoch = 9
code stale_device = 10
code bad_lease_state = 11
code reentrant_mutation = 12
code model_error = 13

pub record StitchResultDetail : Type 0 where
  pub header : StitchHeader
  pub result : StitchResult
  pub domain : ℕ
  pub diagnostic : ℕ

pub record StitchAbiNegotiation : Type 0 where
  pub header : StitchHeader
  pub requested_major : ℕ
  pub requested_minor : ℕ
  pub supported_major : ℕ
  pub supported_minor : ℕ

pub record StitchCoreConfig : Type 0 where
  pub header : StitchHeader
  pub initial_epoch : ℕ

pub record StitchCommand : Type 0 where
  pub header : StitchHeader
  pub kind : ℕ
  pub reserved : ℕ
  pub primary_id : StitchId
  pub secondary_id : StitchId
  pub tertiary_id : StitchId
  pub content_sha256 : StitchDigest
  pub byte_length : ℕ
  pub provider_id : StitchId
  pub timeline_range : StitchTimeRange
  pub source_range : StitchTimeRange

-- `commands` is the pointer: none where it is null, else what stands behind it.
pub record StitchCommandBatch : Type 0 where
  pub header : StitchHeader
  pub commands : Option (List StitchCommand)
  pub command_count : ℕ
  pub reserved : ℕ
  pub expected_revision : StitchDigest
  pub epoch : ℕ

pub record StitchSnapshotMetadata : Type 0 where
  pub header : StitchHeader
  pub revision : StitchDigest
  pub project_digest : StitchDigest
  pub epoch : ℕ
  pub asset_count : ℕ
  pub track_count : ℕ
  pub clip_count : ℕ

pub record StitchDiffMetadata : Type 0 where
  pub header : StitchHeader
  pub previous_revision : StitchDigest
  pub revision : StitchDigest
  pub project_digest : StitchDigest
  pub epoch : ℕ

pub record StitchFrameMetadata : Type 0 where
  pub header : StitchHeader
  pub lease_id : ℕ
  pub revision : StitchDigest
  pub epoch : ℕ
  pub device_generation : ℕ
  pub surface_token : ℕ
  pub synchronization_token : ℕ
  pub owner_thread_token : ℕ
  pub pixel_width : ℕ
  pub pixel_height : ℕ
  pub pixel_format : ℕ
  pub synchronization_kind : ℕ
  pub synchronization_value : ℕ
  pub presentation_time : StitchRational
  pub state : ℕ
  pub reserved : ℕ

pub data LeaseState : Type 0 where
  registered : LeaseState
  acquired : LeaseState
  submitted : LeaseState
  completed : LeaseState
  retired : LeaseState

-- `state as u32`
unfoldable pub number : LeaseState → ℕ
number registered = 1
number acquired = 2
number submitted = 3
number completed = 4
number retired = 5

-- The derived `PartialEq`.
unfoldable pub same_state : LeaseState → LeaseState → Bool
unfolding number
same_state a b = number a == number b

-- The sizes that the source asserts.
abbrev pub result_detail_size : ℕ
result_detail_size = 24

abbrev pub negotiation_size : ℕ
negotiation_size = 24

abbrev pub core_config_size : ℕ
core_config_size = 16

abbrev pub command_size : ℕ
command_size = 184

abbrev pub batch_size : ℕ
batch_size = 64

abbrev pub snapshot_size : ℕ
snapshot_size = 104

abbrev pub diff_size : ℕ
diff_size = 112

abbrev pub frame_size : ℕ
frame_size = 136

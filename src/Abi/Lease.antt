-- ===== src/Abi/Lease.antt =====
-- The frame leases of native/c-abi/rust/src/lib.rs.
pub mod Transitions
use stitch_editor.Prelude.{ℕ, Bool, not, ◌&&◌, ◌||◌, Option, none, some, ◌==◌}
use stitch_editor.Wire.Bytes.{beq}
use stitch_editor.Crates.Im.{Im, Sha256}
use stitch_editor.History.{current_hash}
use stitch_editor.Abi.Table
use stitch_editor.Abi.Types.{
  StitchDigest, StitchFrameMetadata, LeaseState, registered, acquired, submitted, completed,
  retired, number, same_state, invalid_argument, unknown_handle, stale_epoch, stale_revision,
  stale_device, bad_lease_state, frame_size,
}
use stitch_editor.Abi.Process.{
  ThreadId, Lease, Process, Op, Returned, digest, ◌>>=◌, ◌>>◌, lift, found, stop_if, input,
  writable, output, valid_header, next_handle, core, store_core, not_in_callback, ffi,
}
use stitch_editor.Abi.Convert.{rational}

-- The fields that `stitch_frame_lease_register` refuses.
unfoldable pub refused : StitchFrameMetadata → Bool
refused metadata =
    not (metadata.lease_id == 0)
    || not (metadata.state == number registered)
    || (metadata.device_generation == 0)
    || (metadata.surface_token == 0)
    || (metadata.pixel_width == 0)
    || (metadata.pixel_height == 0)
    || not (metadata.pixel_format == 1)
    || not ((metadata.synchronization_kind == 1) || (metadata.synchronization_kind == 2))
    || ((metadata.synchronization_kind == 2) && (metadata.synchronization_token == 0))
    || not (metadata.owner_thread_token == 0)
    || not (metadata.reserved == 0)

module _ (im : Im) (sha : Sha256) (thread : ThreadId) where
  -- The lease in its new state.
  abbrev pub moved_to : LeaseState → Lease → Lease
  moved_to next lease = record lease {
    state = next;
    metadata = record lease.metadata { state = number next };
  }

  unfoldable pub lease_transition : ℕ → ℕ → ℕ → LeaseState → LeaseState → Op im (Unit {0})
  lease_transition core_handle lease_id device expected next = do
    state ← core core_handle
    lease ← found (Table.get lease_id state.leases) unknown_handle
    stop_if (not (lease.metadata.device_generation == device)) stale_device
    stop_if (not (lease.owner == thread)) invalid_argument
    stop_if (not (same_state lease.state expected)) bad_lease_state
    store_core core_handle
        (record state { leases = Table.insert lease_id (moved_to next lease) state.leases })

  unfoldable pub stitch_frame_lease_register :
      ℕ → Option StitchFrameMetadata → Bool → Bool → Process im → Returned im ℕ
  stitch_frame_lease_register core_handle metadata out_lease out = ffi out do
    not_in_callback thread
    writable out_lease
    metadata ← input metadata
    lift (valid_header frame_size metadata.header)
    time ← lift (rational metadata.presentation_time)
    stop_if (refused metadata) invalid_argument
    state ← core core_handle
    stop_if (not (metadata.epoch == state.epoch)) stale_epoch
    stop_if (not (beq metadata.revision (digest (current_hash im sha state.history))))
        stale_revision
    id ← next_handle
    store_core core_handle (record state {
      leases =
          Table.insert id
            (record {
              metadata = record metadata { lease_id = id; owner_thread_token = id };
              state = registered;
              owner = thread;
            })
            state.leases;
    })
    output out_lease id

  abbrev pub metadata_of : Option Lease → Option StitchFrameMetadata
  metadata_of none = none
  metadata_of (some lease) = some lease.metadata

  unfoldable pub stitch_frame_lease_metadata_get :
      ℕ → ℕ → Bool → Bool → Process im → Returned im StitchFrameMetadata
  stitch_frame_lease_metadata_get core_handle lease_id out_metadata out = ffi out do
    state ← core core_handle
    metadata ← found (metadata_of (Table.get lease_id state.leases)) unknown_handle
    output out_metadata metadata

  unfoldable pub stitch_frame_lease_acquire :
      ℕ → ℕ → ℕ → ℕ → Option StitchDigest → Bool → Process im → Returned im (Unit {0})
  stitch_frame_lease_acquire core_handle lease_id device epoch revision out = ffi out do
    not_in_callback thread
    revision ← input revision
    state ← core core_handle
    stop_if (not (epoch == state.epoch)) stale_epoch
    stop_if (not (beq revision (digest (current_hash im sha state.history)))) stale_revision
    lease_transition core_handle lease_id device registered acquired

  unfoldable pub stitch_frame_lease_discard : ℕ → ℕ → ℕ → Bool → Process im → Returned im (Unit {0})
  stitch_frame_lease_discard core_handle lease_id device out = ffi out do
    not_in_callback thread
    state ← core core_handle
    lease ← found (Table.get lease_id state.leases) unknown_handle
    stop_if (not (lease.metadata.device_generation == device)) stale_device
    stop_if (not (lease.owner == thread)) invalid_argument
    stop_if (not (same_state lease.state registered || same_state lease.state acquired))
        bad_lease_state
    store_core core_handle (record state { leases = Table.remove lease_id state.leases })

  unfoldable pub stitch_frame_lease_submit : ℕ → ℕ → ℕ → Bool → Process im → Returned im (Unit {0})
  stitch_frame_lease_submit core_handle lease_id device out = ffi out do
    not_in_callback thread
    state ← core core_handle
    current ← found (Table.get lease_id state.leases) unknown_handle
    stop_if (not (current.metadata.epoch == state.epoch)) stale_epoch
    stop_if (not (beq current.metadata.revision (digest (current_hash im sha state.history))))
        stale_revision
    lease_transition core_handle lease_id device acquired submitted

  unfoldable pub stitch_frame_lease_complete :
      ℕ → ℕ → ℕ → Bool → Process im → Returned im (Unit {0})
  stitch_frame_lease_complete core_handle lease_id device out =
      ffi out
        do not_in_callback thread; lease_transition core_handle lease_id device submitted completed

  unfoldable pub stitch_frame_lease_retire : ℕ → ℕ → ℕ → Bool → Process im → Returned im (Unit {0})
  stitch_frame_lease_retire core_handle lease_id device out = ffi out do
    not_in_callback thread
    lease_transition core_handle lease_id device completed retired
    state ← core core_handle
    store_core core_handle (record state { leases = Table.remove lease_id state.leases })

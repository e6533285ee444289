-- ===== src/Abi/Core.antt =====
-- The cores of native/c-abi/rust/src/lib.rs: negotiation, their lifetime, epochs, snapshots and
-- the submission of command batches.
use stitch_editor.Prelude.{
  ℕ, Bool, true, false, not, ◌||◌, Option, none, some, List, [], ◌==◌, ltb, take, if◌then◌else◌,
}
use stitch_editor.Wire.Bytes.{beq}
use stitch_editor.Crates.Im.{Im, Sha256}
use stitch_editor.Model.Project.{asset_count, track_count, clip_count}
use stitch_editor.Model.Project.Encode.{semantic_digest}
use stitch_editor.History.{EditorHistory, empty_history, project, current_hash}
use stitch_editor.Abi.Table
use stitch_editor.Abi.Types.{
  StitchAbiNegotiation, StitchCoreConfig, StitchCommand, StitchCommandBatch, StitchSnapshotMetadata,
  StitchDiffMetadata, StitchDigest, invalid_argument, unsupported_version, stale_epoch,
  stale_revision, bad_lease_state, invalid_batch, negotiation_size, core_config_size, batch_size,
  snapshot_size, diff_size,
}
use stitch_editor.Abi.Process.{
  ThreadId, CoreState, Process, Op, Returned, abi_version, header, digest, ◌>>=◌, ◌>>◌, return,
  lift, found, writes, stop_if, input, writable, output, valid_header, next_handle, core,
  store_core, not_in_callback, ffi,
}
use stitch_editor.Abi.Batch.{apply_all}

abbrev pub max_commands : ℕ
max_commands = 4096

module _ (im : Im) where
  unfoldable pub stitch_abi_negotiate :
      Option StitchAbiNegotiation → Bool → Process im → Returned im StitchAbiNegotiation
  stitch_abi_negotiate in_out out = ffi out do
    value ← input in_out
    lift (valid_header negotiation_size value.header)
    stop_if (not (value.requested_major == abi_version) || ltb 0 value.requested_minor)
        unsupported_version
    return (record {
      header = header negotiation_size;
      requested_major = value.requested_major;
      requested_minor = value.requested_minor;
      supported_major = abi_version;
      supported_minor = 0;
    })

module _ (im : Im) (sha : Sha256) (thread : ThreadId) where
  unfoldable pub stitch_core_create :
      Option StitchCoreConfig → Bool → Bool → Process im → Returned im ℕ
  stitch_core_create config out_core out = ffi out do
    writable out_core
    config ← input config
    lift (valid_header core_config_size config.header)
    handle ← next_handle
    store_core handle (record {
      history = empty_history im sha;
      epoch = config.initial_epoch;
      leases = [];
      owner = thread;
    })
    output out_core handle

  unfoldable pub stitch_core_destroy : ℕ → Bool → Process im → Returned im (Unit {0})
  stitch_core_destroy handle out = ffi out do
    not_in_callback thread
    state ← core handle
    stop_if (not (state.owner == thread)) invalid_argument
    stop_if (not (Table.is_empty state.leases)) bad_lease_state
    writes (λ p. record p { cores = Table.remove handle p.cores })

  unfoldable pub stitch_core_set_epoch : ℕ → ℕ → Bool → Process im → Returned im (Unit {0})
  stitch_core_set_epoch handle epoch out = ffi out do
    not_in_callback thread
    state ← core handle
    stop_if (not (state.owner == thread)) invalid_argument
    stop_if (ltb epoch state.epoch) stale_epoch
    store_core handle (record state { epoch = epoch })

  unfoldable pub snapshot_metadata : CoreState im → StitchSnapshotMetadata
  snapshot_metadata state = record {
    header = header snapshot_size;
    revision = digest (current_hash im sha state.history);
    project_digest = semantic_digest im sha (project im sha state.history);
    epoch = state.epoch;
    asset_count = asset_count im (project im sha state.history);
    track_count = track_count im (project im sha state.history);
    clip_count = clip_count im (project im sha state.history);
  }

  unfoldable pub stitch_core_snapshot : ℕ → Bool → Bool → Process im → Returned im ℕ
  stitch_core_snapshot handle out_snapshot out = ffi out do
    writable out_snapshot
    state ← core handle
    id ← next_handle
    writes (λ p. record p {
      snapshots =
          Table.insert id (record { value = snapshot_metadata state; refs = 1 }) p.snapshots;
    })
    output out_snapshot id

  abbrev pub set_callback : Bool → Process im → Process im
  set_callback flag p = record p {
    in_callback = λ other. if other == thread then flag else p.in_callback other;
  }

  -- The callback runs between `CallbackGuard::enter` and the guard's drop.
  unfoldable pub run_callback : Option (ℕ → Process im → Process im) → ℕ → Op im (Unit {0})
  run_callback none id = return tt
  run_callback (some callback) id =
      writes (λ p. set_callback false (callback id (set_callback true p)))

  unfoldable pub diff_metadata : StitchDigest → CoreState im → StitchDiffMetadata
  diff_metadata previous state = record {
    header = header diff_size;
    previous_revision = previous;
    revision = digest (current_hash im sha state.history);
    project_digest = semantic_digest im sha (project im sha state.history);
    epoch = state.epoch;
  }

  -- What `stitch_core_submit` checks before it applies the batch: the state and the commands.
  unfoldable pub admitted :
      ℕ → Option StitchCommandBatch → Op im (CoreState im × List StitchCommand)
  admitted core_handle batch = do
    not_in_callback thread
    batch ← input batch
    lift (valid_header batch_size batch.header)
    stop_if (not (batch.reserved == 0)) invalid_batch
    stop_if ((batch.command_count == 0) || ltb max_commands batch.command_count) invalid_batch
    commands ← found batch.commands invalid_batch
    state ← core core_handle
    stop_if (not (state.owner == thread)) invalid_argument
    stop_if (not (batch.epoch == state.epoch)) stale_epoch
    stop_if (not (beq (digest (current_hash im sha state.history)) batch.expected_revision))
        stale_revision
    return (state, take batch.command_count commands)

  -- The new history and the diff's handle.
  unfoldable pub commit : ℕ → CoreState im → EditorHistory im → Op im ℕ
  commit core_handle state history = do
    store_core core_handle (record state { history = history })
    id ← next_handle
    writes (λ p. record p {
      diffs =
          Table.insert id
            (record {
              value =
                  diff_metadata (digest (current_hash im sha state.history))
                    (record state { history = history });
              refs = 1;
            })
            p.diffs;
    })
    return id

  unfoldable pub stitch_core_submit :
      ℕ
      → Option StitchCommandBatch
      → Option (ℕ → Process im → Process im)
      → Bool
      → Bool
      → Process im
      → Returned im ℕ
  stitch_core_submit core_handle batch callback out_diff out = ffi out do
    writable out_diff
    (state, commands) ← admitted core_handle batch
    history ← lift (apply_all im sha commands state.history)
    id ← commit core_handle state history
    written ← output out_diff id
    run_callback callback id
    return written

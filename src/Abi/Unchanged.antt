-- ===== src/Abi/Unchanged.antt =====
-- The failing calls of native/c-abi/rust/src/lib.rs, all together.
pub mod Cores
pub mod Leases
pub mod Handles
use stitch_editor.Prelude.{
  sym, ap, ◌∙◌, arith, ◌≡◌, ◌≢◌, refl, Bool, ℕ, Option, none, some, true, false, List,
}
use stitch_editor.Prelude.Result.{Result, ok, err}
use stitch_editor.Crates.Im.{Im, Sha256}
use stitch_editor.History.{EditorHistory}
use stitch_editor.Abi.Types.{
  StitchResult, unknown_handle, StitchSnapshotMetadata, StitchDiffMetadata, success,
  StitchCoreConfig, StitchCommandBatch, StitchCommand, StitchFrameMetadata, StitchDigest,
  LeaseState,
}
use stitch_editor.Abi.Process.{
  Op, Process, ThreadId, CoreState, RefHandle, store_core, core, writes, ◌>>=◌, found, return,
}
use stitch_editor.Abi.Table.{Table, get, get-insert_self}
use stitch_editor.Abi.Handles.{
  retain, retain_entry, retain_found, release_found, value_of, release, release_entry, on_snapshots,
  on_diffs, read_snapshot, read_diff, stitch_snapshot_retain, stitch_snapshot_release,
  stitch_snapshot_metadata_get, stitch_diff_retain, stitch_diff_release, stitch_diff_metadata_get,
}
use stitch_editor.Abi.Calls.{
  Call, perform, core_create, core_destroy, core_set_epoch, core_snapshot, core_submit,
  snapshot_retain, snapshot_release, snapshot_metadata_get, diff_retain, diff_release,
  diff_metadata_get, lease_register, lease_metadata_get, lease_acquire, lease_discard, lease_submit,
  lease_complete, lease_retire,
}
use stitch_editor.Abi.Core.{
  stitch_core_create, stitch_core_destroy, stitch_core_set_epoch, stitch_core_snapshot,
  stitch_core_submit, admitted, commit, run_callback,
}
use stitch_editor.Abi.Lease.{
  lease_transition, stitch_frame_lease_register, stitch_frame_lease_metadata_get,
  stitch_frame_lease_acquire, stitch_frame_lease_discard, stitch_frame_lease_submit,
  stitch_frame_lease_complete, stitch_frame_lease_retire,
}
use stitch_editor.Abi.Safe.{
  Keeps, Sure, Safe, safely, reading, writing, ffi-failed, Keeps-Safe, Keeps-found, Safe-nested,
}
use stitch_editor.Abi.Unchanged.Cores.{
  create-failed, destroy-failed, set_epoch-failed, snapshot-failed, submit-failed,
}
use stitch_editor.Abi.Unchanged.Leases.{
  register-failed, lease_metadata-failed, acquire-failed, lease_discard-failed, lease_submit-failed,
  lease_complete-failed, lease_retire-failed,
}
use stitch_editor.Abi.Unchanged.Handles.{
  snapshots-Safe, diffs-Safe, retain-failed, release-failed, read_snapshot-Keeps, read_diff-Keeps,
}

module _ (im : Im) (sha : Sha256) (thread : ThreadId) where
  -- Each exported call that does not report success leaves the whole process state as it was:
  -- cores, histories, leases, handles, the handle counter and the callback flags.
  pub perform-failed :
      (out : Bool) (call : Call im) (p : Process im)
      → (perform im sha thread out call p).1 ≢ success
      → (perform im sha thread out call p).0 ≡ p
  unfolding perform stitch_snapshot_retain stitch_snapshot_release stitch_snapshot_metadata_get
      stitch_diff_retain stitch_diff_release stitch_diff_metadata_get
  perform-failed out (core_create config out_core) p failed =
      create-failed im sha thread config out_core out p failed
  perform-failed out (core_destroy handle) p failed =
      destroy-failed im sha thread handle out p failed
  perform-failed out (core_set_epoch handle epoch) p failed =
      set_epoch-failed im sha thread handle epoch out p failed
  perform-failed out (core_snapshot handle out_snapshot) p failed =
      snapshot-failed im sha thread handle out_snapshot out p failed
  perform-failed out (core_submit handle batch callback out_diff) p failed =
      submit-failed im sha thread handle batch callback out_diff out p failed
  perform-failed out (snapshot_retain handle) p failed =
      ffi-failed out _ p (snapshots-Safe im sha thread _ (retain-failed im sha thread handle))
        failed
  perform-failed out (snapshot_release handle) p failed =
      ffi-failed out _ p (snapshots-Safe im sha thread _ (release-failed im sha thread handle))
        failed
  perform-failed out (snapshot_metadata_get handle out_metadata) p failed =
      ffi-failed out _ p
        (Keeps-Safe _ (search (reading, read_snapshot-Keeps im sha thread handle) depth 8)) failed
  perform-failed out (diff_retain handle) p failed =
      ffi-failed out _ p (diffs-Safe im sha thread _ (retain-failed im sha thread handle)) failed
  perform-failed out (diff_release handle) p failed =
      ffi-failed out _ p (diffs-Safe im sha thread _ (release-failed im sha thread handle)) failed
  perform-failed out (diff_metadata_get handle out_metadata) p failed =
      ffi-failed out _ p
        (Keeps-Safe _ (search (reading, read_diff-Keeps im sha thread handle) depth 8)) failed
  perform-failed out (lease_register handle metadata out_lease) p failed =
      register-failed im sha thread handle metadata out_lease out p failed
  perform-failed out (lease_metadata_get handle lease out_metadata) p failed =
      lease_metadata-failed im sha thread handle lease out_metadata out p failed
  perform-failed out (lease_acquire handle lease device epoch revision) p failed =
      acquire-failed im sha thread handle lease device epoch revision out p failed
  perform-failed out (lease_discard handle lease device) p failed =
      lease_discard-failed im sha thread handle lease device out p failed
  perform-failed out (lease_submit handle lease device) p failed =
      lease_submit-failed im sha thread handle lease device out p failed
  perform-failed out (lease_complete handle lease device) p failed =
      lease_complete-failed im sha thread handle lease device out p failed
  perform-failed out (lease_retire handle lease device) p failed =
      lease_retire-failed im sha thread handle lease device out p failed

-- ===== src/Abi/Calls.antt =====
-- The exported functions of native/c-abi/rust/src/lib.rs that use the process state, as one type of
-- calls.
use stitch_editor.Prelude.{ℕ, Bool, Option}
use stitch_editor.Crates.Im.{Im, Sha256}
use stitch_editor.Abi.Types.{
  StitchResult, StitchDigest, StitchCoreConfig, StitchCommandBatch, StitchFrameMetadata,
}
use stitch_editor.Abi.Process.{ThreadId, Process, Returned}
use stitch_editor.Abi.Handles.{
  stitch_snapshot_retain, stitch_snapshot_release, stitch_snapshot_metadata_get, stitch_diff_retain,
  stitch_diff_release, stitch_diff_metadata_get,
}
use stitch_editor.Abi.Core.{
  stitch_core_create, stitch_core_destroy, stitch_core_set_epoch, stitch_core_snapshot,
  stitch_core_submit,
}
use stitch_editor.Abi.Lease.{
  stitch_frame_lease_register, stitch_frame_lease_metadata_get, stitch_frame_lease_acquire,
  stitch_frame_lease_discard, stitch_frame_lease_submit, stitch_frame_lease_complete,
  stitch_frame_lease_retire,
}

-- The arguments of each function, without the pointer to the result detail.
pub data Call (im : Im) : Type 0 where
  core_create : Option StitchCoreConfig → Bool → Call im
  core_destroy : ℕ → Call im
  core_set_epoch : ℕ → ℕ → Call im
  core_snapshot : ℕ → Bool → Call im
  core_submit :
      ℕ → Option StitchCommandBatch → Option (ℕ → Process im → Process im) → Bool → Call im
  snapshot_retain : ℕ → Call im
  snapshot_release : ℕ → Call im
  snapshot_metadata_get : ℕ → Bool → Call im
  diff_retain : ℕ → Call im
  diff_release : ℕ → Call im
  diff_metadata_get : ℕ → Bool → Call im
  lease_register : ℕ → Option StitchFrameMetadata → Bool → Call im
  lease_metadata_get : ℕ → ℕ → Bool → Call im
  lease_acquire : ℕ → ℕ → ℕ → ℕ → Option StitchDigest → Call im
  lease_discard : ℕ → ℕ → ℕ → Call im
  lease_submit : ℕ → ℕ → ℕ → Call im
  lease_complete : ℕ → ℕ → ℕ → Call im
  lease_retire : ℕ → ℕ → ℕ → Call im

abbrev pub outcome : {im : Im} {A : Type 0} → Returned im A → Process im × StitchResult
outcome r = (r.process, r.result)

module _ (im : Im) (sha : Sha256) (thread : ThreadId) (out : Bool) where
  -- The new state and the result.
  unfoldable pub perform : Call im → Process im → Process im × StitchResult
  perform (core_create config out_core) p =
      outcome (stitch_core_create im sha thread config out_core out p)
  perform (core_destroy handle) p = outcome (stitch_core_destroy im sha thread handle out p)
  perform (core_set_epoch handle epoch) p =
      outcome (stitch_core_set_epoch im sha thread handle epoch out p)
  perform (core_snapshot handle out_snapshot) p =
      outcome (stitch_core_snapshot im sha thread handle out_snapshot out p)
  perform (core_submit handle batch callback out_diff) p =
      outcome (stitch_core_submit im sha thread handle batch callback out_diff out p)
  perform (snapshot_retain handle) p = outcome (stitch_snapshot_retain im handle out p)
  perform (snapshot_release handle) p = outcome (stitch_snapshot_release im handle out p)
  perform (snapshot_metadata_get handle out_metadata) p =
      outcome (stitch_snapshot_metadata_get im handle out_metadata out p)
  perform (diff_retain handle) p = outcome (stitch_diff_retain im handle out p)
  perform (diff_release handle) p = outcome (stitch_diff_release im handle out p)
  perform (diff_metadata_get handle out_metadata) p =
      outcome (stitch_diff_metadata_get im handle out_metadata out p)
  perform (lease_register handle metadata out_lease) p =
      outcome (stitch_frame_lease_register im sha thread handle metadata out_lease out p)
  perform (lease_metadata_get handle lease out_metadata) p =
      outcome (stitch_frame_lease_metadata_get im sha thread handle lease out_metadata out p)
  perform (lease_acquire handle lease device epoch revision) p =
      outcome (stitch_frame_lease_acquire im sha thread handle lease device epoch revision out p)
  perform (lease_discard handle lease device) p =
      outcome (stitch_frame_lease_discard im sha thread handle lease device out p)
  perform (lease_submit handle lease device) p =
      outcome (stitch_frame_lease_submit im sha thread handle lease device out p)
  perform (lease_complete handle lease device) p =
      outcome (stitch_frame_lease_complete im sha thread handle lease device out p)
  perform (lease_retire handle lease device) p =
      outcome (stitch_frame_lease_retire im sha thread handle lease device out p)

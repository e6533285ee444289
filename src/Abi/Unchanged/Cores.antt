-- ===== src/Abi/Unchanged/Cores.antt =====
-- The failing calls on cores, native/c-abi/rust/src/lib.rs.
use stitch_editor.Prelude.{◌≡◌, ◌≢◌, Bool, ℕ, Option, none, some}
use stitch_editor.Crates.Im.{Im, Sha256}
use stitch_editor.History.{EditorHistory}
use stitch_editor.Abi.Types.{success, StitchCoreConfig, StitchCommandBatch}
use stitch_editor.Abi.Process.{Process, ThreadId, CoreState}
use stitch_editor.Abi.Core.{
  stitch_core_create, stitch_core_destroy, stitch_core_set_epoch, stitch_core_snapshot,
  stitch_core_submit, admitted, commit, run_callback,
}
use stitch_editor.Abi.Safe.{Keeps, Sure, safely, reading, writing, ffi-failed}

module _ (im : Im) (sha : Sha256) (thread : ThreadId) where
  admitted-Keeps :
      (handle : ℕ) (batch : Option StitchCommandBatch) → Keeps (admitted im sha thread handle batch)
  unfolding admitted
  admitted-Keeps handle batch = search (reading) depth 16

  commit-Sure :
      (handle : ℕ) (state : CoreState im) (history : EditorHistory im)
      → Sure (commit im sha thread handle state history)
  unfolding commit
  commit-Sure handle state history = search (writing) depth 8

  run_callback-Sure :
      (callback : Option (ℕ → Process im → Process im)) (id : ℕ)
      → Sure (run_callback im sha thread callback id)
  unfolding run_callback
  run_callback-Sure none id = search (writing) depth 8
  run_callback-Sure (some callback) id = search (writing) depth 8

  pub create-failed :
      (config : Option StitchCoreConfig) (out_core : Bool) (out : Bool) (p : Process im)
      → (stitch_core_create im sha thread config out_core out p).result ≢ success
      → (stitch_core_create im sha thread config out_core out p).process ≡ p
  unfolding stitch_core_create
  create-failed config out_core out p failed = ffi-failed out _ p (search (safely) depth 16) failed

  pub destroy-failed :
      (handle : ℕ) (out : Bool) (p : Process im)
      → (stitch_core_destroy im sha thread handle out p).result ≢ success
      → (stitch_core_destroy im sha thread handle out p).process ≡ p
  unfolding stitch_core_destroy
  destroy-failed handle out p failed = ffi-failed out _ p (search (safely) depth 16) failed

  pub set_epoch-failed :
      (handle : ℕ) (epoch : ℕ) (out : Bool) (p : Process im)
      → (stitch_core_set_epoch im sha thread handle epoch out p).result ≢ success
      → (stitch_core_set_epoch im sha thread handle epoch out p).process ≡ p
  unfolding stitch_core_set_epoch
  set_epoch-failed handle epoch out p failed = ffi-failed out _ p (search (safely) depth 16) failed

  pub snapshot-failed :
      (handle : ℕ) (out_snapshot : Bool) (out : Bool) (p : Process im)
      → (stitch_core_snapshot im sha thread handle out_snapshot out p).result ≢ success
      → (stitch_core_snapshot im sha thread handle out_snapshot out p).process ≡ p
  unfolding stitch_core_snapshot
  snapshot-failed handle out_snapshot out p failed =
      ffi-failed out _ p (search (safely) depth 16) failed

  pub submit-failed :
      (handle : ℕ) (batch : Option StitchCommandBatch)
      (callback : Option (ℕ → Process im → Process im)) (out_diff : Bool) (out : Bool)
      (p : Process im)
      → (stitch_core_submit im sha thread handle batch callback out_diff out p).result ≢ success
      → (stitch_core_submit im sha thread handle batch callback out_diff out p).process ≡ p
  unfolding stitch_core_submit
  submit-failed handle batch callback out_diff out p failed =
      ffi-failed out _ p (search (safely, admitted-Keeps, commit-Sure, run_callback-Sure) depth 16)
        failed

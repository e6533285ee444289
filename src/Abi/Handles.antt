-- ===== src/Abi/Handles.antt =====
-- The reference-counted handles of snapshots and diffs, native/c-abi/rust/src/lib.rs.
pub mod Counts
use stitch_editor.Prelude.{ℕ, suc, ◌-◌, ◌^◌, Bool, Option, none, some, ◌==◌, if◌then◌else◌}
use stitch_editor.Prelude.Result.{Result, ok, err}
use stitch_editor.Crates.Im.{Im}
use stitch_editor.Abi.Table
use stitch_editor.Abi.Table.{Table}
use stitch_editor.Abi.Types.{
  StitchResult, StitchSnapshotMetadata, StitchDiffMetadata, invalid_argument, unknown_handle,
}
use stitch_editor.Abi.Process.{Process, RefHandle, Op, Returned, ◌>>=◌, found, output, ffi}

module _ {V : Type 0} where
  -- `entry.refs.checked_add(1)`
  unfoldable pub retain_entry :
      ℕ → RefHandle V → Table (RefHandle V) → Table (RefHandle V) × Result StitchResult (Unit {0})
  retain_entry handle entry entries =
      if suc entry.refs == 2 ^ 32
      then (entries, err invalid_argument)
      else (Table.insert handle (record entry { refs = suc entry.refs }) entries, ok tt)

  unfoldable pub retain_found :
      ℕ
      → Table (RefHandle V)
      → Option (RefHandle V)
      → Table (RefHandle V) × Result StitchResult (Unit {0})
  retain_found handle entries none = (entries, err unknown_handle)
  retain_found handle entries (some entry) = retain_entry handle entry entries

  unfoldable pub retain :
      ℕ → Table (RefHandle V) → Table (RefHandle V) × Result StitchResult (Unit {0})
  retain handle entries = retain_found handle entries (Table.get handle entries)

  unfoldable pub release_entry : ℕ → RefHandle V → Table (RefHandle V) → Table (RefHandle V)
  release_entry handle entry entries =
      if entry.refs == 1
      then Table.remove handle entries
      else Table.insert handle (record entry { refs = entry.refs - 1 }) entries

  unfoldable pub release_found :
      ℕ
      → Table (RefHandle V)
      → Option (RefHandle V)
      → Table (RefHandle V) × Result StitchResult (Unit {0})
  release_found handle entries none = (entries, err unknown_handle)
  release_found handle entries (some entry) = (release_entry handle entry entries, ok tt)

  unfoldable pub release :
      ℕ → Table (RefHandle V) → Table (RefHandle V) × Result StitchResult (Unit {0})
  release handle entries = release_found handle entries (Table.get handle entries)

  unfoldable pub value_of : ℕ → Table (RefHandle V) → Option V
  value_of handle entries = value (Table.get handle entries)
    where
      value : Option (RefHandle V) → Option V
      value none = none
      value (some entry) = some entry.value

module _ (im : Im) where
  -- An operation on one of the two tables, as an operation on the process.
  unfoldable pub on_snapshots :
      (Table (RefHandle StitchSnapshotMetadata)
        → Table (RefHandle StitchSnapshotMetadata) × Result StitchResult (Unit {0}))
      → Op im (Unit {0})
  on_snapshots f p = let (snapshots, r) = f p.snapshots in (record p { snapshots = snapshots }, r)

  unfoldable pub on_diffs :
      (Table (RefHandle StitchDiffMetadata)
        → Table (RefHandle StitchDiffMetadata) × Result StitchResult (Unit {0}))
      → Op im (Unit {0})
  on_diffs f p = let (diffs, r) = f p.diffs in (record p { diffs = diffs }, r)

  -- `entries.get(&handle).ok_or(UnknownHandle)?.value`
  unfoldable pub read_snapshot : ℕ → Op im StitchSnapshotMetadata
  read_snapshot handle p = found (value_of handle p.snapshots) unknown_handle p

  unfoldable pub read_diff : ℕ → Op im StitchDiffMetadata
  read_diff handle p = found (value_of handle p.diffs) unknown_handle p

  unfoldable pub stitch_snapshot_retain : ℕ → Bool → Process im → Returned im (Unit {0})
  stitch_snapshot_retain handle out = ffi out (on_snapshots (retain handle))

  unfoldable pub stitch_snapshot_release : ℕ → Bool → Process im → Returned im (Unit {0})
  stitch_snapshot_release handle out = ffi out (on_snapshots (release handle))

  unfoldable pub stitch_snapshot_metadata_get :
      ℕ → Bool → Bool → Process im → Returned im StitchSnapshotMetadata
  stitch_snapshot_metadata_get handle out_metadata out =
      ffi out do value ← read_snapshot handle; output out_metadata value

  unfoldable pub stitch_diff_retain : ℕ → Bool → Process im → Returned im (Unit {0})
  stitch_diff_retain handle out = ffi out (on_diffs (retain handle))

  unfoldable pub stitch_diff_release : ℕ → Bool → Process im → Returned im (Unit {0})
  stitch_diff_release handle out = ffi out (on_diffs (release handle))

  unfoldable pub stitch_diff_metadata_get :
      ℕ → Bool → Bool → Process im → Returned im StitchDiffMetadata
  stitch_diff_metadata_get handle out_metadata out =
      ffi out do value ← read_diff handle; output out_metadata value

-- ===== src/Abi/Unchanged/Handles.antt =====
-- Failing operations on the handle tables, native/c-abi/rust/src/lib.rs.
use stitch_editor.Prelude.{arith, ◌≡◌, refl, ℕ, Option, none, some}
use stitch_editor.Prelude.Result.{Result, err}
use stitch_editor.Crates.Im.{Im, Sha256}
use stitch_editor.Abi.Types.{
  StitchResult, unknown_handle, StitchSnapshotMetadata, StitchDiffMetadata,
}
use stitch_editor.Abi.Process.{ThreadId, RefHandle}
use stitch_editor.Abi.Table.{Table, get}
use stitch_editor.Abi.Handles.{
  retain, retain_entry, retain_found, release_found, value_of, release, on_snapshots, on_diffs,
  read_snapshot, read_diff,
}
use stitch_editor.Abi.Safe.{Keeps, Safe, Keeps-found}

module _ (im : Im) (sha : Sha256) (thread : ThreadId) where
  retain_found-failed :
      {V : Type 0} (handle : ℕ) (entries : Table (RefHandle V)) (o : Option (RefHandle V))
      (e : StitchResult)
      → (retain_found handle entries o).1 ≡ err e
      → (retain_found handle entries o).0 ≡ entries
  unfolding retain_found retain_entry
  retain_found-failed handle entries none e failed = refl
  retain_found-failed handle entries (some entry) e failed = ground arith

  release_found-failed :
      {V : Type 0} (handle : ℕ) (entries : Table (RefHandle V)) (o : Option (RefHandle V))
      (e : StitchResult)
      → (release_found handle entries o).1 ≡ err e
      → (release_found handle entries o).0 ≡ entries
  unfolding release_found
  release_found-failed handle entries none e failed = refl
  release_found-failed handle entries (some entry) e failed = absurd (cc failed)

  pub snapshots-Safe :
      (f : Table (RefHandle StitchSnapshotMetadata)
        → Table (RefHandle StitchSnapshotMetadata) × Result StitchResult (Unit {0}))
      → ((entries : Table (RefHandle StitchSnapshotMetadata)) (e : StitchResult)
          → (f entries).1 ≡ err e
          → (f entries).0 ≡ entries)
      → Safe (on_snapshots im f)
  unfolding on_snapshots
  snapshots-Safe f h = record {
    safe = λ p e failed i. record p { snapshots = h p.snapshots e failed i };
  }

  pub diffs-Safe :
      (f : Table (RefHandle StitchDiffMetadata)
        → Table (RefHandle StitchDiffMetadata) × Result StitchResult (Unit {0}))
      → ((entries : Table (RefHandle StitchDiffMetadata)) (e : StitchResult)
          → (f entries).1 ≡ err e
          → (f entries).0 ≡ entries)
      → Safe (on_diffs im f)
  unfolding on_diffs
  diffs-Safe f h = record { safe = λ p e failed i. record p { diffs = h p.diffs e failed i } }

  pub retain-failed :
      {V : Type 0} (handle : ℕ) (entries : Table (RefHandle V)) (e : StitchResult)
      → (retain handle entries).1 ≡ err e
      → (retain handle entries).0 ≡ entries
  unfolding retain
  retain-failed handle entries = retain_found-failed handle entries (get handle entries)

  pub release-failed :
      {V : Type 0} (handle : ℕ) (entries : Table (RefHandle V)) (e : StitchResult)
      → (release handle entries).1 ≡ err e
      → (release handle entries).0 ≡ entries
  unfolding release
  release-failed handle entries = release_found-failed handle entries (get handle entries)

  pub read_snapshot-Keeps : (handle : ℕ) → Keeps (read_snapshot im handle)
  unfolding read_snapshot
  read_snapshot-Keeps handle = record {
    keeps = λ p. (Keeps-found (value_of handle p.snapshots) unknown_handle).keeps p;
  }

  pub read_diff-Keeps : (handle : ℕ) → Keeps (read_diff im handle)
  unfolding read_diff
  read_diff-Keeps handle = record {
    keeps = λ p. (Keeps-found (value_of handle p.diffs) unknown_handle).keeps p;
  }

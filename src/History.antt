-- ===== src/History.antt =====
-- `EditorHistory` of crates/editor-core/src/lib.rs, and `revision_hash` of
-- crates/contracts/src/lib.rs. A method with `&mut self` gives the new history and its result.
mod Tests
pub mod Onto
pub mod Timeline
pub mod Refinement
pub mod Replay
pub mod Moves
use stitch_editor.Prelude.{
  ℕ, zero, suc, ◌+◌, ◌==◌, Bool, true, false, Option, none, some, List, [], ◌∷◌, ◌++◌, length,
  get_elem?, take, if◌then◌else◌,
}
use stitch_editor.Prelude.Result.{Result, ok, err}
use stitch_editor.Ids.{RevisionHash, ModelError}
use stitch_editor.Wire.Bytes.{Bytes}
use stitch_editor.Wire.Encode.{write_u32, write_bytes}
use stitch_editor.Crates.Im.{Im, Sha256}
use stitch_editor.Model.Command.{Command, canonical_bytes, contract_schema_version}
use stitch_editor.Model.Project.{Project, default, reduce}

-- `b"STITCH-REVISION\0"`
abbrev pub revision_magic : Bytes
revision_magic = 83 ∷ 84 ∷ 73 ∷ 84 ∷ 67 ∷ 72 ∷ 45 ∷ 82 ∷ 69 ∷ 86 ∷ 73 ∷ 83 ∷ 73 ∷ 79 ∷ 78 ∷ 0 ∷ []

abbrev pub parent_bytes : Option RevisionHash → Bytes
parent_bytes none = 0 ∷ []
parent_bytes (some parent) = 1 ∷ parent

-- The bytes that `revision_hash` hashes.
unfoldable pub revision_bytes : Option RevisionHash → Command → Bytes
revision_bytes parent command =
    revision_magic
    ++ (write_u32 contract_schema_version
        ++ (parent_bytes parent ++ write_bytes (canonical_bytes command)))

unfoldable pub revision_hash : Sha256 → Option RevisionHash → Command → RevisionHash
revision_hash sha parent command = sha.digest (revision_bytes parent command)

pub record HistoryRevision (im : Im) : Type 0 where
  pub project : Project im
  pub hash : RevisionHash

pub record EditorHistory (im : Im) : Type 0 where
  pub revisions : List (HistoryRevision im)
  pub cursor : ℕ

-- `self.cursor.checked_sub(1).and_then(|index| self.revisions.get(index))`
abbrev pub entry_before {ℓ} : {A : Type ℓ} → List A → ℕ → Option A
entry_before revisions zero = none
entry_before revisions (suc index) = get_elem? revisions index

abbrev pub project_or_default : (im : Im) → Option (HistoryRevision im) → Project im
project_or_default im none = default im
project_or_default im (some revision) = revision.project

abbrev pub hash_of : (im : Im) → Option (HistoryRevision im) → Option RevisionHash
hash_of im none = none
hash_of im (some revision) = some revision.hash

module _ (im : Im) (sha : Sha256) where
  -- `EditorHistory::default`
  abbrev pub empty_history : EditorHistory im
  empty_history = record { revisions = []; cursor = 0 }

  unfoldable pub project : EditorHistory im → Project im
  project self = project_or_default im (entry_before self.revisions self.cursor)

  unfoldable pub current_hash : EditorHistory im → Option RevisionHash
  current_hash self = hash_of im (entry_before self.revisions self.cursor)

  unfoldable pub revision_count : EditorHistory im → ℕ
  revision_count self = length self.revisions

  -- What `apply` does once `reduce` has given its result.
  unfoldable pub record_revision :
      EditorHistory im
      → Command
      → Result ModelError (Project im)
      → EditorHistory im × Result ModelError RevisionHash
  record_revision self command (err e) = (self, err e)
  record_revision self command (ok next) =
      let hash = revision_hash sha (current_hash self) command in
      (
        record {
          revisions =
              take self.cursor self.revisions ++ (record { project = next; hash = hash }) ∷ [];
          cursor = suc self.cursor;
        },
        ok hash,
      )

  unfoldable pub apply :
      EditorHistory im → Command → EditorHistory im × Result ModelError RevisionHash
  apply self command = record_revision self command (reduce im (project self) command)

  unfoldable pub undo_at : EditorHistory im → ℕ → EditorHistory im × Bool
  undo_at self zero = (self, false)
  undo_at self (suc before) = (record self { cursor = before }, true)

  unfoldable pub undo : EditorHistory im → EditorHistory im × Bool
  undo self = undo_at self self.cursor

  unfoldable pub redo : EditorHistory im → EditorHistory im × Bool
  redo self =
      if self.cursor == length self.revisions
      then (self, false)
      else (record self { cursor = suc self.cursor }, true)

-- ===== src/Crates/MapLaws.antt =====
-- Consequences of the interface of `OrdMap`.
use stitch_editor.Prelude.{◌≡◌, sym, ◌∙◌, []}
use stitch_editor.Wire.Bytes.{Bytes}
use stitch_editor.Crates.Assoc.{lookup, lookup_ext}
use stitch_editor.Crates.Im.{Im}

module _ (im : Im) where
  open im use {
    Map, get, empty, entries, get-entries, entries-IsAscending, entries_injective, get-empty,
  }

  -- Maps with the same lookups are equal.
  pub get_ext : {V : Type 0} (m n : Map V) → ((k : Bytes) → get k m ≡ get k n) → m ≡ n
  get_ext m n h = entries_injective m n (
      lookup_ext (entries m) (entries n) (entries-IsAscending m) (entries-IsAscending n)
        (λ k. sym (get-entries k m) ∙ h k ∙ get-entries k n))

  pub entries-empty : (V : Type 0) → entries (empty {V = V}) ≡ []
  unfolding lookup
  entries-empty V =
      lookup_ext (entries (empty {V = V})) [] (entries-IsAscending empty) tt
        (λ k. sym (get-entries k empty) ∙ get-empty V k)

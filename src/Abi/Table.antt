-- ===== src/Abi/Table.antt =====
-- Rust's `HashMap<u64, V>`: a list of entries whose order nothing reads.
use stitch_editor.Prelude.{
  ℕ, ◌≡◌, Bool, true, false, Option, none, some, List, [], ◌∷◌, ◌==◌, if◌then◌else◌, arith,
}

abbrev pub Table : Type 0 → Type 0
Table V = List (ℕ × V)

module _ {V : Type 0} where
  unfoldable pub get : ℕ → Table V → Option V
  get k [] = none
  get k ((j, v) ∷ rest) = if j == k then some v else get k rest

  unfoldable pub remove : ℕ → Table V → Table V
  remove k [] = []
  remove k ((j, v) ∷ rest) = if j == k then remove k rest else (j, v) ∷ remove k rest

  unfoldable pub insert : ℕ → V → Table V → Table V
  insert k v table = (k, v) ∷ remove k table

  unfoldable pub is_empty : Table V → Bool
  is_empty [] = true
  is_empty (entry ∷ rest) = false

  pub get-remove :
      (j k : ℕ) (table : Table V) → get k (remove j table) ≡ (if j == k then none else get k table)
  unfolding get remove
  get-remove j k [] = ground arith
  get-remove j k ((i, v) ∷ rest) = ground (arith, get-remove j k rest)

  pub get-insert :
      (j k : ℕ) (v : V) (table : Table V)
      → get k (insert j v table) ≡ (if j == k then some v else get k table)
  unfolding get insert
  get-insert j k v table = ground (arith, get-remove j k table)

  pub get-insert_self : (k : ℕ) (v : V) (table : Table V) → get k (insert k v table) ≡ some v
  get-insert_self k v table = ground (arith, get-insert k k v table)

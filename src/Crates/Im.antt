-- ===== src/Crates/Im.antt =====
-- The `im` crate's `OrdMap` with keys of bytes and its `Vector`, and `sha2`, as the core uses them.
-- The laws state what the crates document; two maps or vectors are equal as their `PartialEq`
-- has it, by their entries in order.
use stitch_editor.Prelude.{
  ℕ, ◌≡◌, Bool, true, false, Option, none, some, List, [], ◌∷◌, ◌++◌, if◌then◌else◌, length,
}
use stitch_editor.Wire.Bytes.{Bytes, IsArray, beq}
use stitch_editor.Crates.Assoc.{lookup, IsAscending}

abbrev pub is_some {ℓ} : {A : Type ℓ} → Option A → Bool
is_some none = false
is_some (some a) = true

pub record Im : Type 1 where
  pub Map : Type 0 → Type 0
  pub empty : {V : Type 0} → Map V
  pub get : {V : Type 0} → Bytes → Map V → Option V
  pub contains_key : {V : Type 0} → Bytes → Map V → Bool
  -- The new map, and the value that the key had.
  pub insert : {V : Type 0} → Bytes → V → Map V → Map V × Option V
  pub remove : {V : Type 0} → Bytes → Map V → Map V × Option V
  pub len : {V : Type 0} → Map V → ℕ
  pub entries : {V : Type 0} → Map V → List (Bytes × V)
  pub Vector : Type 0 → Type 0
  pub vector_new : {A : Type 0} → Vector A
  pub push_back : {A : Type 0} → Vector A → A → Vector A
  pub from_iter : {A : Type 0} → List A → Vector A
  pub iter : {A : Type 0} → Vector A → List A
  pub get-empty : (V : Type 0) (k : Bytes) → get k (empty {V = V}) ≡ none
  pub contains_key-get : {V : Type 0} (k : Bytes) (m : Map V) → contains_key k m ≡ is_some (get k m)
  pub get-insert :
      {V : Type 0} (j k : Bytes) (v : V) (m : Map V)
      → get k (insert j v m).0 ≡ (if beq j k then some v else get k m)
  pub insert-old : {V : Type 0} (j : Bytes) (v : V) (m : Map V) → (insert j v m).1 ≡ get j m
  pub get-remove :
      {V : Type 0} (j k : Bytes) (m : Map V)
      → get k (remove j m).0 ≡ (if beq j k then none else get k m)
  pub get-entries : {V : Type 0} (k : Bytes) (m : Map V) → get k m ≡ lookup k (entries m)
  pub entries-IsAscending : {V : Type 0} (m : Map V) → IsAscending (entries m)
  pub len-entries : {V : Type 0} (m : Map V) → len m ≡ length (entries m)
  pub entries_injective : {V : Type 0} (m n : Map V) → entries m ≡ entries n → m ≡ n
  pub iter-new : (A : Type 0) → iter (vector_new {A = A}) ≡ []
  pub iter-push_back : {A : Type 0} (v : Vector A) (a : A) → iter (push_back v a) ≡ iter v ++ a ∷ []
  pub iter-from_iter : {A : Type 0} (xs : List A) → iter (from_iter xs) ≡ xs
  pub iter_injective : {A : Type 0} (v w : Vector A) → iter v ≡ iter w → v ≡ w

-- `Sha256::digest`
pub record Sha256 : Type 0 where
  pub digest : Bytes → Bytes
  pub digest-IsArray : (bytes : Bytes) → IsArray 32 (digest bytes)

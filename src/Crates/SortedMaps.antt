-- ===== src/Crates/SortedMaps.antt =====
-- Sorted association lists and lists as an instance of the interface of `im`, and a constant
-- digest as one of `sha2`, for the concrete runs.
use mathlib.Core.HLevel.{Σ_prop_path}
use stitch_editor.Prelude.{
  ◌≡◌, refl, sym, subst, true, none, some, List, [], ◌∷◌, ◌++◌, if◌then◌else◌, arith, length, inl,
  inr, Bool-cases, replicate,
}
use stitch_editor.Wire.Bytes.{Bytes, beq, beq_iff}
use stitch_editor.Crates.Assoc.{
  bytes_lt, bytes_lt_total, AllAbove, AllAbove-trans, IsAscending, lookup,
}
use stitch_editor.Crates.Im.{Im, Sha256, is_some}

module _ {V : Type 0} where
  unfoldable pub insert_sorted : Bytes → V → List (Bytes × V) → List (Bytes × V)
  insert_sorted j v [] = (j, v) ∷ []
  insert_sorted j v ((k, w) ∷ rest) =
      if beq j k
      then (j, v) ∷ rest
      else if bytes_lt j k
      then (j, v) ∷ (k, w) ∷ rest
      else (k, w) ∷ insert_sorted j v rest

  unfoldable pub remove_sorted : Bytes → List (Bytes × V) → List (Bytes × V)
  remove_sorted j [] = []
  remove_sorted j ((k, w) ∷ rest) =
      if beq j k then remove_sorted j rest else (k, w) ∷ remove_sorted j rest

  insert-AllAbove :
      (i j : Bytes) (v : V) (xs : List (Bytes × V))
      → bytes_lt i j ≡ true
      → AllAbove i xs
      → AllAbove i (insert_sorted j v xs)
  unfolding insert_sorted
  insert-AllAbove i j v [] h a = (h, tt)
  insert-AllAbove i j v ((k, w) ∷ xs) h a = ground (arith, insert-AllAbove i j v xs)

  pub insert-IsAscending :
      (j : Bytes) (v : V) (xs : List (Bytes × V))
      → IsAscending xs
      → IsAscending (insert_sorted j v xs)
  unfolding insert_sorted
  insert-IsAscending j v [] a = (tt, tt)
  insert-IsAscending j v ((k, w) ∷ xs) a = elim (Bool-cases (beq j k)) [
    | inl same ↦ rw same (subst (λ i. AllAbove i xs) (sym ((beq_iff j k).0 same)) a.0, a.1)
    | inr apart ↦ elim (Bool-cases (bytes_lt j k)) [
      | inl below ↦ rw (apart, below) ((below, AllAbove-trans j k xs below a.0), a)
      | inr not_below ↦
          rw (apart, not_below)
            (
              insert-AllAbove k j v xs (bytes_lt_total j k apart not_below) a.0,
              insert-IsAscending j v xs a.1,
            )
    ]
  ]

  pub lookup-insert :
      (j k : Bytes) (v : V) (xs : List (Bytes × V))
      → lookup k (insert_sorted j v xs) ≡ (if beq j k then some v else lookup k xs)
  unfolding lookup insert_sorted
  lookup-insert j k v [] = refl
  lookup-insert j k v ((i, w) ∷ xs) =
      ground (arith, beq_iff j i, beq_iff i k, beq_iff j k, lookup-insert j k v xs)

  remove-AllAbove :
      (i j : Bytes) (xs : List (Bytes × V)) → AllAbove i xs → AllAbove i (remove_sorted j xs)
  unfolding remove_sorted
  remove-AllAbove i j [] a = tt
  remove-AllAbove i j ((k, w) ∷ xs) a = ground (arith, remove-AllAbove i j xs)

  pub remove-IsAscending :
      (j : Bytes) (xs : List (Bytes × V)) → IsAscending xs → IsAscending (remove_sorted j xs)
  unfolding remove_sorted
  remove-IsAscending j [] a = tt
  remove-IsAscending j ((k, w) ∷ xs) a =
      ground (arith, remove-AllAbove k j xs, remove-IsAscending j xs)

  pub lookup-remove :
      (j k : Bytes) (xs : List (Bytes × V))
      → lookup k (remove_sorted j xs) ≡ (if beq j k then none else lookup k xs)
  unfolding lookup remove_sorted
  lookup-remove j k [] = ground arith
  lookup-remove j k ((i, w) ∷ xs) =
      ground (arith, beq_iff j i, beq_iff i k, beq_iff j k, lookup-remove j k xs)

  AllAbove-prop : (k : Bytes) (xs : List (Bytes × V)) → IsProp (AllAbove k xs)
  AllAbove-prop k [] = hlevel
  AllAbove-prop k ((j, v) ∷ xs) = hlevel (AllAbove-prop k xs)

  pub IsAscending-prop : (xs : List (Bytes × V)) → IsProp (IsAscending xs)
  IsAscending-prop [] = hlevel
  IsAscending-prop ((k, v) ∷ xs) = hlevel (AllAbove-prop k xs, IsAscending-prop xs)

pub lookup-nil : {V : Type 0} (k : Bytes) → lookup {V = V} k [] ≡ none
unfolding lookup
lookup-nil k = refl

abbrev pub SortedMap : Type 0 → Type 0
SortedMap V = (xs : List (Bytes × V)) × IsAscending xs

abbrev pub sorted : Im
sorted = record {
  Map = SortedMap;
  empty = ([], tt);
  get = λ k m. lookup k m.0;
  contains_key = λ k m. is_some (lookup k m.0);
  insert = λ k v m. ((insert_sorted k v m.0, insert-IsAscending k v m.0 m.1), lookup k m.0);
  remove = λ k m. ((remove_sorted k m.0, remove-IsAscending k m.0 m.1), lookup k m.0);
  len = λ m. length m.0;
  entries = λ m. m.0;
  Vector = λ A. List A;
  vector_new = [];
  push_back = λ v a. v ++ a ∷ [];
  from_iter = λ xs. xs;
  iter = λ v. v;
  get-empty = λ V k. lookup-nil k;
  contains_key-get = λ k m. refl;
  get-insert = λ j k v m. lookup-insert j k v m.0;
  insert-old = λ j v m. refl;
  get-remove = λ j k m. lookup-remove j k m.0;
  get-entries = λ k m. refl;
  entries-IsAscending = λ m. m.1;
  len-entries = λ m. refl;
  entries_injective = λ m n h. Σ_prop_path IsAscending-prop h;
  iter-new = λ A. refl;
  iter-push_back = λ v a. refl;
  iter-from_iter = λ xs. refl;
  iter_injective = λ v w h. h;
}

abbrev pub zero_digest : Sha256
zero_digest = record { digest = λ bytes. replicate 32 0; digest-IsArray = λ bytes. omega arith }

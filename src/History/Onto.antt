-- ===== src/History/Onto.antt =====
-- A past, newest first, put back onto a future.
use stitch_editor.Prelude.{
  ℕ, suc, ◌+◌, ◌≡◌, refl, ap, List, [], ◌∷◌, ◌++◌, length, get_elem?, take, arith,
}

abbrev pub onto {ℓ} : {A : Type ℓ} → List A → List A → List A
onto [] future = future
onto (revision ∷ past) future = onto past (revision ∷ future)

module _ {ℓ} {A : Type ℓ} where
  pub length-onto : (past future : List A) → length (onto past future) ≡ length past + length future
  length-onto [] future = omega arith
  length-onto (r ∷ past) future = omega (arith, length-onto past (r ∷ future))

  pub get_elem?-past :
      (past future : List A) (i j : ℕ)
      → j ≡ length past + i
      → get_elem? (onto past future) j ≡ get_elem? future i
  get_elem?-past [] future i j e = ap (get_elem? future) (omega (arith, e))
  get_elem?-past (r ∷ past) future i j e =
      get_elem?-past past (r ∷ future) (suc i) j (omega (arith, e))

  take-past :
      (past future : List A) (i j : ℕ)
      → j ≡ length past + i
      → take j (onto past future) ≡ onto past (take i future)
  take-past [] future i j e = ap (λ n. take n future) (omega (arith, e))
  take-past (r ∷ past) future i j e = take-past past (r ∷ future) (suc i) j (omega (arith, e))

  pub take-onto : (past future : List A) → take (length past) (onto past future) ≡ onto past []
  take-onto past future = take-past past future 0 (length past) (omega arith)

  pub append-onto :
      (past future rest : List A) → onto past future ++ rest ≡ onto past (future ++ rest)
  append-onto [] future rest = refl
  append-onto (x ∷ past) future rest = append-onto past (x ∷ future) rest

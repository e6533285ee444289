-- ===== src/Crates/Assoc.antt =====
-- Association lists with byte-string keys, in ascending order: what iterating over a map gives.
use stitch_editor.Prelude.{
  ◌≡◌, refl, sym, subst, ◌∙◌, Bool, true, false, ◌&&◌, ◌||◌, Option, none, some, List, [], ◌∷◌,
  arith, ltb, ◌==◌, if◌then◌else◌, inl, inr, Bool-cases,
}
use stitch_editor.Wire.Bytes.{Bytes, beq, beq_iff, beq_refl}

-- The derived `Ord` of a byte array.
pub bytes_lt : Bytes → Bytes → Bool
bytes_lt [] [] = false
bytes_lt [] (y ∷ ys) = true
bytes_lt (x ∷ xs) [] = false
bytes_lt (x ∷ xs) (y ∷ ys) = ltb x y || ((x == y) && bytes_lt xs ys)

pub bytes_lt_irrefl : (xs : Bytes) → bytes_lt xs xs ≡ false
unfolding bytes_lt
bytes_lt_irrefl [] = refl
bytes_lt_irrefl (x ∷ xs) = ground (arith, bytes_lt_irrefl xs)

pub bytes_lt_trans :
    (xs ys zs : Bytes) → bytes_lt xs ys ≡ true → bytes_lt ys zs ≡ true → bytes_lt xs zs ≡ true
unfolding bytes_lt
bytes_lt_trans [] [] zs p q = cc
bytes_lt_trans [] (y ∷ ys) [] p q = cc
bytes_lt_trans [] (y ∷ ys) (z ∷ zs) p q = refl
bytes_lt_trans (x ∷ xs) [] zs p q = cc
bytes_lt_trans (x ∷ xs) (y ∷ ys) [] p q = cc
bytes_lt_trans (x ∷ xs) (y ∷ ys) (z ∷ zs) p q = ground (arith, bytes_lt_trans xs ys zs)

pub bytes_lt_total :
    (xs ys : Bytes) → beq xs ys ≡ false → bytes_lt xs ys ≡ false → bytes_lt ys xs ≡ true
unfolding bytes_lt beq
bytes_lt_total [] [] p q = cc
bytes_lt_total [] (y ∷ ys) p q = cc
bytes_lt_total (x ∷ xs) [] p q = refl
bytes_lt_total (x ∷ xs) (y ∷ ys) p q = ground (arith, bytes_lt_total xs ys)

pub beq-lt : (xs ys : Bytes) → bytes_lt xs ys ≡ true → beq xs ys ≡ false
beq-lt xs ys h = elim (Bool-cases (beq xs ys)) [
  | inl same ↦
      cc (bytes_lt_irrefl xs, subst (λ zs. bytes_lt xs zs ≡ true) (sym ((beq_iff xs ys).0 same)) h)
  | inr apart ↦ apart
]

pub beq_sym : (xs ys : Bytes) → beq xs ys ≡ beq ys xs
unfolding beq
beq_sym [] [] = refl
beq_sym [] (y ∷ ys) = refl
beq_sym (x ∷ xs) [] = refl
beq_sym (x ∷ xs) (y ∷ ys) = ground (arith, beq_sym xs ys)

module _ {V : Type 0} where
  abbrev pub AllAbove : Bytes → List (Bytes × V) → Type 0
  AllAbove k [] = Unit
  AllAbove k ((j, v) ∷ rest) = (bytes_lt k j ≡ true) × AllAbove k rest

  abbrev pub IsAscending : List (Bytes × V) → Type 0
  IsAscending [] = Unit
  IsAscending ((k, v) ∷ rest) = AllAbove k rest × IsAscending rest

  unfoldable pub lookup : Bytes → List (Bytes × V) → Option V
  lookup k [] = none
  lookup k ((j, v) ∷ rest) = if beq j k then some v else lookup k rest

  pub AllAbove-trans :
      (k j : Bytes) (xs : List (Bytes × V)) → bytes_lt k j ≡ true → AllAbove j xs → AllAbove k xs
  AllAbove-trans k j [] h a = tt
  AllAbove-trans k j ((i, v) ∷ xs) h a = (bytes_lt_trans k j i h a.0, AllAbove-trans k j xs h a.1)

  -- A key below all others is not found.
  pub lookup-AllAbove : (k : Bytes) (xs : List (Bytes × V)) → AllAbove k xs → lookup k xs ≡ none
  unfolding lookup
  lookup-AllAbove k [] a = refl
  lookup-AllAbove k ((j, v) ∷ xs) a = rw (beq_sym j k, beq-lt k j a.0) (lookup-AllAbove k xs a.1)

  lookup-head : (k : Bytes) (v : V) (xs : List (Bytes × V)) → lookup k ((k, v) ∷ xs) ≡ some v
  unfolding lookup
  lookup-head k v xs = rw (beq_refl k)

  lookup-tail :
      (i k : Bytes) (v : V) (xs : List (Bytes × V))
      → beq k i ≡ false
      → lookup i ((k, v) ∷ xs) ≡ lookup i xs
  unfolding lookup
  lookup-tail i k v xs h = rw h

  -- A list whose keys are all above `k` differs at `k` from one that begins with `k`.
  above-differs :
      (k : Bytes) (v : V) (xs ys : List (Bytes × V))
      → AllAbove k ys
      → ((i : Bytes) → lookup i ((k, v) ∷ xs) ≡ lookup i ys)
      → ⊥
  above-differs k v xs ys above h = cc (h k, lookup-head k v xs, lookup-AllAbove k ys above)

  tails-agree :
      (k : Bytes) (v w : V) (xs ys : List (Bytes × V))
      → AllAbove k xs
      → AllAbove k ys
      → ((i : Bytes) → lookup i ((k, v) ∷ xs) ≡ lookup i ((k, w) ∷ ys))
      → (i : Bytes) → lookup i xs ≡ lookup i ys
  tails-agree k v w xs ys ax ay h i = elim (Bool-cases (beq k i)) [
    | inl same ↦
        let e = (beq_iff k i).0 same in
        subst (λ j. lookup j xs ≡ lookup j ys) e
          (lookup-AllAbove k xs ax ∙ sym (lookup-AllAbove k ys ay))
    | inr apart ↦ sym (lookup-tail i k v xs apart) ∙ h i ∙ lookup-tail i k w ys apart
  ]

  -- Ascending lists with the same lookups are the same.
  pub lookup_ext :
      (xs ys : List (Bytes × V))
      → IsAscending xs
      → IsAscending ys
      → ((k : Bytes) → lookup k xs ≡ lookup k ys)
      → xs ≡ ys
  lookup_ext [] [] ax ay h = refl
  lookup_ext [] ((k, v) ∷ ys) ax ay h = absurd (above-differs k v ys [] tt (λ i. sym (h i)))
  lookup_ext ((k, v) ∷ xs) [] ax ay h = absurd (above-differs k v xs [] tt h)
  lookup_ext ((k, v) ∷ xs) ((j, w) ∷ ys) ax ay h = elim (Bool-cases (beq k j)) [
    | inl same ↦
        let e : k ≡ j = (beq_iff k j).0 same in
        let above : AllAbove k ys = subst (λ i. AllAbove i ys) (sym e) ay.0 in
        let h' : (i : Bytes) → lookup i ((k, v) ∷ xs) ≡ lookup i ((k, w) ∷ ys) =
          subst (λ l. (i : Bytes) → lookup i ((k, v) ∷ xs) ≡ lookup i ((l, w) ∷ ys)) (sym e) h in
        let value : v ≡ w = cc (h' k, lookup-head k v xs, lookup-head k w ys) in
        let rest = lookup_ext xs ys ax.1 ay.1 (tails-agree k v w xs ys ax.0 above h') in
        λ i. (e i, value i) ∷ rest i
    | inr apart ↦ elim (Bool-cases (bytes_lt k j)) [
      | inl below ↦
          absurd (above-differs k v xs ((j, w) ∷ ys) (below, AllAbove-trans k j ys below ay.0) h)
      | inr not_below ↦
          let above = bytes_lt_total k j apart not_below in
          absurd (
            above-differs j w ys ((k, v) ∷ xs) (above, AllAbove-trans j k xs above ax.0)
              (λ i. sym (h i)))
    ]
  ]

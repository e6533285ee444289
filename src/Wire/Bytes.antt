-- ===== src/Wire/Bytes.antt =====
-- Byte strings as lists of numbers below 256, and Rust's `to_be_bytes` and `from_be_bytes`.
use native.Mathlib.Nat.{pow-suc}
use stitch_editor.Prelude.{
  ℕ, zero, suc, ◌+◌, ◌-◌, ◌*◌, ◌/◌, ◌%◌, ◌^◌, ◌≤◌, ◌<◌, ◌≡◌, refl, subst, ◌∙◌, List, [], ◌∷◌, ◌++◌,
  arith, length, length-append, if◌then◌else◌, ltb, ◌==◌, Bool, true, false, ◌&&◌, ◌↔◌,
}
use stitch_editor.Prelude.Int.{ℤ, pos, negsuc, pos_part, neg_part}

abbrev pub Bytes : Type 0
Bytes = List ℕ

-- `[u8; n]::eq`
unfoldable pub beq : Bytes → Bytes → Bool
beq [] [] = true
beq [] (y ∷ ys) = false
beq (x ∷ xs) [] = false
beq (x ∷ xs) (y ∷ ys) = (x == y) && beq xs ys

beq→eq : (xs ys : Bytes) → beq xs ys ≡ true → xs ≡ ys
unfolding beq
beq→eq [] [] h = refl
beq→eq [] (y ∷ ys) h = cc
beq→eq (x ∷ xs) [] h = cc
beq→eq (x ∷ xs) (y ∷ ys) h = ground (arith, beq→eq xs ys)

pub beq_refl : (xs : Bytes) → beq xs xs ≡ true
unfolding beq
beq_refl [] = refl
beq_refl (x ∷ xs) = ground (arith, beq_refl xs)

pub beq_iff : (xs ys : Bytes) → (beq xs ys ≡ true) ↔ (xs ≡ ys)
beq_iff xs ys = (beq→eq xs ys, λ e. subst (λ zs. beq xs zs ≡ true) e (beq_refl xs))

abbrev pub AllBytes : Bytes → Type 0
AllBytes [] = Unit
AllBytes (b ∷ bs) = (b < 256) × AllBytes bs

-- A `[u8; n]`.
abbrev pub IsArray : ℕ → Bytes → Type 0
IsArray n xs = (length xs ≡ n) × AllBytes xs

-- `to_be_bytes` of an unsigned number of `width` bytes.
unfoldable pub be_bytes : ℕ → ℕ → Bytes
be_bytes zero value = []
be_bytes (suc width) value = be_bytes width (value / 256) ++ (value % 256) ∷ []

-- `from_be_bytes`
be_from : ℕ → Bytes → ℕ
be_from high [] = high
be_from high (b ∷ bs) = be_from (high * 256 + b) bs

unfoldable pub from_be : Bytes → ℕ
unfolding be_from
from_be bs = be_from 0 bs

pub length-be_bytes : (width value : ℕ) → length (be_bytes width value) ≡ width
unfolding be_bytes
length-be_bytes zero value = refl
length-be_bytes (suc width) value = omega (
  arith,
  length-append (be_bytes width (value / 256)) ((value % 256) ∷ []),
  length-be_bytes width (value / 256),
)

be_from-snoc :
    (high : ℕ) (bs : Bytes) (b : ℕ) → be_from high (bs ++ b ∷ []) ≡ be_from high bs * 256 + b
unfolding be_from
be_from-snoc high [] b = refl
be_from-snoc high (c ∷ bs) b = be_from-snoc (high * 256 + c) bs b

-- A number that fits its width is read back from its bytes.
pub from_be-be_bytes :
    (width value : ℕ) → value < 256 ^ width → from_be (be_bytes width value) ≡ value
unfolding be_bytes from_be be_from
from_be-be_bytes zero value h = omega arith
from_be-be_bytes (suc width) value h =
    be_from-snoc 0 (be_bytes width (value / 256)) (value % 256)
    ∙ omega (arith, from_be-be_bytes width (value / 256) (omega (arith, pow-suc 256 width)))

-- `i64::to_be_bytes` writes two's complement.
abbrev pub bits_of : ℤ → ℕ
bits_of (pos n) = n
bits_of (negsuc n) = 2 ^ 64 - 1 - n

abbrev pub signed : ℕ → ℤ
signed n = if ltb n (2 ^ 63) then pos n else negsuc (2 ^ 64 - 1 - n)

pub signed-bits_of :
    (z : ℤ) → (neg_part z ≤ 2 ^ 63) × (pos_part z < 2 ^ 63) → signed (bits_of z) ≡ z
signed-bits_of (pos n) h = ground arith
signed-bits_of (negsuc n) h = ground arith

pub bits_of-lt : (z : ℤ) → (neg_part z ≤ 2 ^ 63) × (pos_part z < 2 ^ 63) → bits_of z < 256 ^ 8
bits_of-lt (pos n) h = omega arith
bits_of-lt (negsuc n) h = omega arith

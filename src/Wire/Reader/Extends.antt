-- ===== src/Wire/Reader/Extends.antt =====
-- Readers on longer input.
use stitch_editor.Prelude.{
  ℕ, zero, suc, ◌+◌, ◌≤◌, ◌≡◌, refl, ap, [], ◌∷◌, ◌++◌, arith, length, ◌==◌, ltb, length-append,
  take, drop, Bool, true, false, if◌then◌else◌, get_or,
}
use stitch_editor.Prelude.Result.{Result, ok, err}
use stitch_editor.Ids.{ModelError, corrupt_project}
use stitch_editor.Wire.Bytes.{Bytes, beq, from_be}
use stitch_editor.Wire.Reader.{
  Reader, M, ◌>>=◌, return, lift, step, stepped, usize_limit, take_bytes, expect, array, u32, u64,
  byte, count, rational, time_range, finish,
}

abbrev pub extend : Reader → Bytes → Reader
extend r more = record r { input = r.input ++ more }

abbrev pub Extends {ℓ} : {A : Type ℓ} → M A → Type ℓ
Extends {A = A} m =
    (r r' : Reader) (a : A) (more : Bytes)
    → m r ≡ ok (a, r')
    → m (extend r more) ≡ ok (a, extend r' more)

take-append : (n : ℕ) (xs more : Bytes) → n ≤ length xs → take n (xs ++ more) ≡ take n xs
take-append zero xs more h = refl
take-append (suc n) [] more h = absurd (omega arith)
take-append (suc n) (x ∷ xs) more h = ap (◌∷◌ x) (take-append n xs more (omega arith))

slice-append :
    (o n : ℕ) (xs more : Bytes)
    → o + n ≤ length xs
    → take n (drop o (xs ++ more)) ≡ take n (drop o xs)
slice-append zero n xs more h = take-append n xs more (omega arith)
slice-append (suc o) n [] more h = absurd (omega arith)
slice-append (suc o) n (x ∷ xs) more h = slice-append o n xs more (omega arith)

pub take_bytes-Extends : (n : ℕ) → Extends (take_bytes n)
unfolding take_bytes
take_bytes-Extends n r r' a more h =
    ground (arith, slice-append r.offset n r.input more, length-append r.input more)

pub Extends-bind {ℓ κ} :
    {A : Type ℓ} {B : Type κ} (m : M A) (f : A → M B)
    → Extends m
    → ((a : A) → Extends (f a))
    → Extends (m >>= f)
Extends-bind m f hm hf r r' b more h = elim (step m f r h) [
  | stepped a t e k ↦ rw (hm r t a more e, ◌>>=◌) (hf a t r' b more k)
]

pub Extends-return {ℓ} : {A : Type ℓ} (a : A) → Extends (return a)
Extends-return a r r' b more h = cc h

pub Extends-lift {ℓ} : {A : Type ℓ} (x : Result ModelError A) → Extends (lift x)
Extends-lift (ok a) r r' b more h = cc h
Extends-lift (err e) r r' b more h = cc

-- A test before the rest of a step.
pub Extends-if {ℓ} :
    {A : Type ℓ} (b : Bool) {m n : M A} → Extends m → Extends n → Extends (if b then m else n)
Extends-if true hm hn = hm
Extends-if false hm hn = hn

pub expect-Extends : (expected : Bytes) → Extends (expect expected)
unfolding expect
expect-Extends expected =
    Extends-bind (take_bytes (length expected)) _ (take_bytes-Extends (length expected)) (λ value.
      Extends-if (beq value expected) (Extends-return tt) (Extends-lift (err corrupt_project)))

pub array-Extends : (n : ℕ) → Extends (array n)
unfolding array
array-Extends n = Extends-bind (take_bytes n) _ (take_bytes-Extends n) (λ value.
    Extends-if (length value == n) (Extends-return value) (Extends-lift (err corrupt_project)))

pub u32-Extends : Extends u32
unfolding u32
u32-Extends = Extends-bind (array 4) _ (array-Extends 4) (λ value. Extends-return (from_be value))

pub u64-Extends : Extends u64
unfolding u64
u64-Extends = Extends-bind (array 8) _ (array-Extends 8) (λ value. Extends-return (from_be value))

pub byte-Extends : Extends byte
unfolding byte
byte-Extends =
    Extends-bind (array 1) _ (array-Extends 1) (λ value. Extends-return (get_or value 0 0))

pub count-Extends : Extends count
unfolding count
count-Extends = Extends-bind u64 _ u64-Extends (λ value.
    Extends-if (ltb value usize_limit) (Extends-return value) (Extends-lift (err corrupt_project)))

pub rational-Extends : Extends rational
unfolding rational
rational-Extends =
    Extends-bind (array 8) _ (array-Extends 8)
      (λ numerator. Extends-bind (array 8) _ (array-Extends 8) (λ denominator. Extends-lift _))

pub time_range-Extends : Extends time_range
unfolding time_range
time_range-Extends =
    Extends-bind rational _ rational-Extends
      (λ start. Extends-bind rational _ rational-Extends (λ end. Extends-lift _))

-- A reader that must end with its input accepts no longer input that begins with one it accepts.
pub finish-extend :
    (r : Reader) (b : ℕ) (more : Bytes)
    → finish r ≡ ok tt
    → finish (extend r (b ∷ more)) ≡ err corrupt_project
unfolding finish
finish-extend r b more h = ground (arith, length-append r.input (b ∷ more))

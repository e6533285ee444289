-- ===== src/Wire/Reader.antt =====
-- `Reader` of crates/contracts/src/lib.rs, as a state monad with failure.
pub mod Decodes
pub mod Times
pub mod Extends
use stitch_editor.Prelude.{
  ◌≡◌, refl, ℕ, ◌+◌, ◌^◌, Bool, List, [], ◌∷◌, length, take, drop, get_or, if◌then◌else◌, ltb, leb,
  ◌==◌, ◌&&◌,
}
use stitch_editor.Prelude.Result.{Result, ok, err, map_err}
use stitch_editor.Ids.{ModelError, corrupt_project}
use stitch_editor.Time.Rational.{Rational}
use stitch_editor.Time.Rational
use stitch_editor.Time.Range.{TimeRange}
use stitch_editor.Time.Range
use stitch_editor.Wire.Bytes.{Bytes, beq, from_be, signed}

pub record Reader : Type 0 where
  pub input : Bytes
  pub offset : ℕ

abbrev pub M {ℓ} : Type ℓ → Type ℓ
M A = Reader → Result ModelError (A × Reader)

abbrev pub continue {ℓ κ} :
    {A : Type ℓ} {B : Type κ}
    → (A → M B)
    → Result ModelError (A × Reader)
    → Result ModelError (B × Reader)
continue f (ok (a, r)) = f a r
continue f (err e) = err e

infixl 5 ◌>>=◌ ◌>>◌
abbrev pub ◌>>=◌ {ℓ κ} : {A : Type ℓ} {B : Type κ} → M A → (A → M B) → M B
◌>>=◌ m f r = continue f (m r)

abbrev pub ◌>>◌ {ℓ} : {B : Type ℓ} → M (Unit {0}) → M B → M B
first >> rest = first >>= λ _. rest

abbrev pub return {ℓ} : {A : Type ℓ} → A → M A
return a r = ok (a, r)

abbrev pub lift {ℓ} : {A : Type ℓ} → Result ModelError A → M A
lift (ok a) r = ok (a, r)
lift (err e) r = err e

abbrev pub new : Bytes → Reader
new input = record { input = input; offset = 0 }

-- A usize and an address have 64 bits.
abbrev pub usize_limit : ℕ
usize_limit = 2 ^ 64

abbrev pub at_end : Reader → ℕ → ℕ → Result ModelError (Bytes × Reader)
at_end self count end =
    if ltb end usize_limit && leb end (length self.input)
    then ok (take count (drop self.offset self.input), record self { offset = end })
    else err corrupt_project

-- `Reader::take`
unfoldable pub take_bytes : ℕ → M Bytes
take_bytes count self = at_end self count (self.offset + count)

unfoldable pub expect : Bytes → M (Unit {0})
expect expected = do
  value ← take_bytes (length expected)
  if beq value expected then return tt else lift (err corrupt_project)

-- `take` and the conversion of the slice to an array.
unfoldable pub array : ℕ → M Bytes
array count = do
  value ← take_bytes count
  if length value == count then return value else lift (err corrupt_project)

unfoldable pub u32 : M ℕ
u32 = do value ← array 4; return (from_be value)

unfoldable pub u64 : M ℕ
u64 = do value ← array 8; return (from_be value)

unfoldable pub byte : M ℕ
byte = do value ← array 1; return (get_or value 0 0)

unfoldable pub count : M ℕ
count = do value ← u64; if ltb value usize_limit then return value else lift (err corrupt_project)

unfoldable pub rational : M Rational
rational = do
  numerator ← array 8
  denominator ← array 8
  lift (
      map_err (Rational.new (signed (from_be numerator)) (signed (from_be denominator)))
        corrupt_project)

unfoldable pub time_range : M TimeRange
time_range = do
  start ← rational
  end ← rational
  lift (map_err (Range.new start end) corrupt_project)

-- What a step that succeeds has done, as a case to match on.
pub data Stepped {ℓ κ} {A : Type ℓ} {B : Type κ} (m : M A) (f : A → M B) (r : Reader) (b : B)
    (r' : Reader) : Type (ℓ ⊔ κ) where
  stepped : (a : A) (s : Reader) → m r ≡ ok (a, s) → f a s ≡ ok (b, r') → Stepped m f r b r'

stepped_by {ℓ κ} :
    {A : Type ℓ} {B : Type κ} (m : M A) (f : A → M B) (r : Reader) {b : B} {r' : Reader}
    (x : Result ModelError (A × Reader))
    → m r ≡ x
    → continue f x ≡ ok (b, r')
    → Stepped m f r b r'
stepped_by m f r (ok (a, s)) e h = stepped a s e h
stepped_by m f r (err error) e h = cc

pub step {ℓ κ} :
    {A : Type ℓ} {B : Type κ} (m : M A) (f : A → M B) (r : Reader) {b : B} {r' : Reader}
    → (m >>= f) r ≡ ok (b, r')
    → Stepped m f r b r'
step m f r h = stepped_by m f r (m r) refl h

unfoldable pub finish : Reader → Result ModelError (Unit {0})
finish self = if self.offset == length self.input then ok tt else err corrupt_project

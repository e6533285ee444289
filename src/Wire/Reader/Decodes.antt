-- ===== src/Wire/Reader/Decodes.antt =====
-- Readers on the bytes that the writers made.
use stitch_editor.Prelude.{
  ℕ, zero, suc, ◌+◌, ◌≤◌, ◌<◌, ◌≡◌, refl, sym, ap, subst, ◌∙◌, [], ◌∷◌, ◌++◌, arith, length,
  length-append, take, drop, append_assoc, ◌^◌,
}
use stitch_editor.Prelude.Result.{ok}
use stitch_editor.Wire.Bytes.{Bytes, beq_refl, be_bytes, length-be_bytes, from_be-be_bytes}
use stitch_editor.Wire.Reader.{
  Reader, M, ◌>>=◌, return, at_end, usize_limit, take_bytes, expect, array, u32, u64, byte, count,
}

-- `ys` is what the reader has left.
pub record At (r : Reader) (ys : Bytes) : Type 0 where
  pub left : drop r.offset r.input ≡ ys
  pub total : r.offset + length ys ≡ length r.input
  pub small : length r.input < usize_limit

abbrev pub advance : Reader → ℕ → Reader
advance r n = record r { offset = r.offset + n }

-- `m` reads `xs` as `a`, whatever follows.
abbrev pub Decodes {ℓ} : {A : Type ℓ} → M A → Bytes → A → Type ℓ
Decodes m xs a =
    (r : Reader) (rest : Bytes) → At r (xs ++ rest) → m r ≡ ok (a, advance r (length xs))

take-length : (xs rest : Bytes) → take (length xs) (xs ++ rest) ≡ xs
take-length [] rest = refl
take-length (x ∷ xs) rest = ap (◌∷◌ x) (take-length xs rest)

drop-length : (xs rest : Bytes) → drop (length xs) (xs ++ rest) ≡ rest
drop-length [] rest = refl
drop-length (x ∷ xs) rest = drop-length xs rest

suc-add : (n m : ℕ) → suc (n + m) ≡ suc n + m
suc-add n m = omega arith

drop-nil : (m : ℕ) → drop {A = ℕ} m [] ≡ []
drop-nil zero = refl
drop-nil (suc m) = refl

drop-drop : (n m : ℕ) (xs : Bytes) → drop m (drop n xs) ≡ drop (n + m) xs
drop-drop zero m xs = ap (λ k. drop k xs) (omega arith)
drop-drop (suc n) m [] = drop-nil m ∙ sym (drop-nil (suc n + m))
drop-drop (suc n) m (x ∷ xs) = drop-drop n m xs ∙ ap (λ k. drop k (x ∷ xs)) (suc-add n m)

At-advance : (r : Reader) (xs rest : Bytes) → At r (xs ++ rest) → At (advance r (length xs)) rest
At-advance r xs rest h = record {
  left =
      sym (drop-drop r.offset (length xs) r.input)
      ∙ ap (drop (length xs)) h.left
      ∙ drop-length xs rest;
  total = omega (arith, h.total, length-append xs rest);
  small = h.small;
}

at_end-ok :
    (r : Reader) (n end : ℕ)
    → end < usize_limit
    → end ≤ length r.input
    → at_end r n end ≡ ok (take n (drop r.offset r.input), record r { offset = end })
at_end-ok r n end small fits = ground arith

pub take_bytes-Decodes : (xs : Bytes) → Decodes (take_bytes (length xs)) xs xs
unfolding take_bytes
take_bytes-Decodes xs r rest h =
    at_end-ok r (length xs) (r.offset + length xs)
      (omega (arith, h.total, h.small, length-append xs rest))
      (omega (arith, h.total, length-append xs rest))
    ∙ ap (λ v. ok (v, advance r (length xs))) (ap (take (length xs)) h.left ∙ take-length xs rest)

-- Steps in a row read the bytes in a row.
pub Decodes-bind {ℓ κ} :
    {A : Type ℓ} {B : Type κ} (m : M A) (f : A → M B) (xs ys : Bytes) (a : A) (b : B)
    → Decodes m xs a
    → Decodes (f a) ys b
    → Decodes (m >>= f) (xs ++ ys) b
Decodes-bind m f xs ys a b hm hf r rest h =
    let split = subst (At r) (append_assoc xs ys rest) h in
    rw (hm r (ys ++ rest) split, ◌>>=◌)
      (hf (advance r (length xs)) rest (At-advance r xs (ys ++ rest) split)
        ∙ ap (λ k. ok (b, record r { offset = k })) (omega (arith, length-append xs ys)))

pub Decodes-return {ℓ} : {A : Type ℓ} (a : A) → Decodes (return a) [] a
Decodes-return a r rest h = ap (λ k. ok (a, record r { offset = k })) (omega arith)

-- A last step that only converts the value.
pub Decodes-map {ℓ κ} :
    {A : Type ℓ} {B : Type κ} (m : M A) (f : A → M B) (xs : Bytes) (a : A) (b : B)
    → Decodes m xs a
    → ((r : Reader) → f a r ≡ ok (b, r))
    → Decodes (m >>= f) xs b
Decodes-map m f xs a b hm hf r rest h = rw (hm r rest h, ◌>>=◌) (hf (advance r (length xs)))

pub expect-Decodes : (expected : Bytes) → Decodes (expect expected) expected tt
unfolding expect
expect-Decodes expected =
    Decodes-map (take_bytes (length expected)) _ expected expected tt (take_bytes-Decodes expected)
      (λ r. rw (beq_refl expected))

pub array-Decodes : (n : ℕ) (xs : Bytes) → length xs ≡ n → Decodes (array n) xs xs
unfolding array
array-Decodes n xs e =
    subst (λ k. Decodes (array k) xs xs) e
      (Decodes-map (take_bytes (length xs)) _ xs xs xs (take_bytes-Decodes xs) (λ r. ground arith))

pub be-Decodes :
    (width value : ℕ) → Decodes (array width) (be_bytes width value) (be_bytes width value)
be-Decodes width value = array-Decodes width (be_bytes width value) (length-be_bytes width value)

pub u32-Decodes : (value : ℕ) → value < 256 ^ 4 → Decodes u32 (be_bytes 4 value) value
unfolding u32
u32-Decodes value h =
    Decodes-map (array 4) _ (be_bytes 4 value) (be_bytes 4 value) value (be-Decodes 4 value)
      (λ r. rw (from_be-be_bytes 4 value h))

pub u64-Decodes : (value : ℕ) → value < 256 ^ 8 → Decodes u64 (be_bytes 8 value) value
unfolding u64
u64-Decodes value h =
    Decodes-map (array 8) _ (be_bytes 8 value) (be_bytes 8 value) value (be-Decodes 8 value)
      (λ r. rw (from_be-be_bytes 8 value h))

pub byte-Decodes : (b : ℕ) → Decodes byte (b ∷ []) b
unfolding byte
byte-Decodes b =
    Decodes-map (array 1) _ (b ∷ []) (b ∷ []) b (array-Decodes 1 (b ∷ []) refl) (λ r. refl)

pub count-Decodes : (value : ℕ) → value < 256 ^ 8 → Decodes count (be_bytes 8 value) value
unfolding count
count-Decodes value h =
    Decodes-map u64 _ (be_bytes 8 value) value value (u64-Decodes value h) (λ r. ground arith)

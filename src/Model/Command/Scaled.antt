-- ===== src/Model/Command/Scaled.antt =====
-- `Command::from_canonical_bytes` on rationals that are not in lowest terms.
use native.Mathlib.Nat.{mul-pos, mul-lt-mul_of_pos_left}
use stitch_editor.Prelude.{
  ℕ, ◌<◌, ◌≡◌, ◌≢◌, refl, sym, ap, ◌∙◌, [], ◌∷◌, ◌++◌, arith, length, length-append,
}
use stitch_editor.Prelude.Int.{pos, ◌*ℤ◌, nat_abs, nat_abs-*ℤ, *ℤ_assoc}
use stitch_editor.Prelude.Result.{ok}
use stitch_editor.Ids.{ClipId}
use stitch_editor.Time.Rational.{Rational}
use stitch_editor.Time.Rational
use stitch_editor.Time.Rational.Canonical.{IsCanonical, FitsI64}
use stitch_editor.Time.Rational.Exact.{new_iff, abs_pos}
use stitch_editor.Time.Rational.Signs.{*ℤ_regroup}
use stitch_editor.Time.Range.{TimeRange, IsRange}
use stitch_editor.Wire.Bytes.{Bytes, IsArray, be_bytes, from_be, bits_of, signed, length-be_bytes}
use stitch_editor.Wire.Encode.{write_u32, rational_bytes, range_bytes}
use stitch_editor.Wire.Reader.{time_range, byte}
use stitch_editor.Wire.Reader.Decodes.{Decodes, Decodes-bind, Decodes-map, byte-Decodes}
use stitch_editor.Wire.Reader.Times.{
  i64-be_bytes, rational-Decodes, rational-Decodes_of, time_range-Decodes_of,
}
use stitch_editor.Model.Command.RoundTrip.{
  finished-Decodes, array-then, header-Decodes, length-move_clip,
}
use stitch_editor.Model.Command.{
  move_clip, command_body, command_magic, from_canonical_bytes, canonical_bytes, read_body,
  read_command,
}

-- The fraction of `q` with both terms multiplied by `k`, as it would be written.
abbrev pub scaled : ℕ → Rational → Rational
scaled k q = record { numerator = q.numerator *ℤ pos k; denominator = q.denominator *ℤ pos k }

new-scaled :
    (k : ℕ) (q : Rational)
    → 0 < k
    → IsCanonical q
    → FitsI64 (scaled k q).numerator
    → FitsI64 (scaled k q).denominator
    → Rational.new (scaled k q).numerator (scaled k q).denominator ≡ ok q
new-scaled k q h c hn hd = (new_iff _ _ q hn hd).1 (nonzero, c, value)
  where
    nonzero : q.denominator *ℤ pos k ≢ pos 0
    nonzero e = absurd (
        omega (
          arith,
          ap nat_abs e,
          nat_abs-*ℤ q.denominator (pos k),
          mul-pos (abs_pos q.denominator c.denominator_pos) h,
        ))

    value : q.numerator *ℤ (q.denominator *ℤ pos k) ≡ q.numerator *ℤ pos k *ℤ q.denominator
    value =
        sym (*ℤ_assoc q.numerator q.denominator (pos k))
        ∙ *ℤ_regroup q.numerator q.denominator (pos k)

append-injective :
    (xs ys : Bytes) {a b : Bytes} → length xs ≡ length ys → xs ++ a ≡ ys ++ b → (xs ≡ ys) × (a ≡ b)
append-injective [] [] e h = (refl, h)
append-injective [] (y ∷ ys) e h = absurd (omega arith)
append-injective (x ∷ xs) [] e h = absurd (omega arith)
append-injective (x ∷ xs) (y ∷ ys) {a} {b} e h =
    let rest = append-injective xs ys {a = a} {b = b} (omega arith) (cc h) in
    let head : x ≡ y = cc h in (λ i. head i ∷ rest.0 i, rest.1)

-- A written range: the start's fraction is not reduced.
abbrev pub written : ℕ → TimeRange → TimeRange
written k t = record t { start = scaled k t.start }

module _ (clip : ClipId) (t : TimeRange) (k : ℕ) (clip_array : IsArray 16 clip) (range : IsRange t)
    (multiple : 1 < k) (numerator_fits : FitsI64 (scaled k t.start).numerator)
    (denominator_fits : FitsI64 (scaled k t.start).denominator) where
  written-Decodes :
      Decodes read_command (canonical_bytes (move_clip clip (written k t))) (move_clip clip t)
  unfolding read_body canonical_bytes command_body
  written-Decodes = header-Decodes (4 ∷ (clip ++ range_bytes (written k t))) (move_clip clip t) (
      Decodes-bind byte read_body (4 ∷ []) (clip ++ range_bytes (written k t)) 4 _ (byte-Decodes 4)
        (array-then _ 16 clip _ _ clip_array.0 (
          Decodes-map time_range _ _ t _
            (time_range-Decodes_of (scaled k t.start) t.end t
              (rational-Decodes_of (scaled k t.start) t.start numerator_fits denominator_fits (
                new-scaled k t.start (omega arith) range.start_canonical numerator_fits
                  denominator_fits))
              (rational-Decodes t.end range.end_canonical) range.ordered)
            (λ r. refl))))

  written-ne-canonical :
      canonical_bytes (move_clip clip (written k t)) ≢ canonical_bytes (move_clip clip t)
  unfolding canonical_bytes write_u32 command_body range_bytes rational_bytes
  written-ne-canonical e = absurd (
      omega (
        arith,
        ap nat_abs same,
        nat_abs-*ℤ t.start.denominator (pos k),
        mul-lt-mul_of_pos_left multiple
            (abs_pos t.start.denominator range.start_canonical.denominator_pos),
      ))
    where
      numerators : Rational → Bytes
      numerators q = be_bytes 8 (bits_of q.numerator)

      denominators : Rational → Bytes
      denominators q = be_bytes 8 (bits_of q.denominator)

      bodies :
          ◌≡◌ {A = Bytes} (4 ∷ (clip ++ range_bytes (written k t))) (4 ∷ (clip ++ range_bytes t))
      bodies =
          (append-injective (be_bytes 4 1) (be_bytes 4 1) refl
            (append-injective command_magic command_magic refl e).1).1

      tails : range_bytes (written k t) ≡ range_bytes t
      tails =
          (append-injective clip clip {a = range_bytes (written k t)} {b = range_bytes t} refl
            (cc bodies)).1

      starts : rational_bytes (scaled k t.start) ≡ rational_bytes t.start
      starts =
          (append-injective (rational_bytes (scaled k t.start)) (rational_bytes t.start)
            (simp (length-append, length-be_bytes) refl) tails).0

      written_back : denominators (scaled k t.start) ≡ denominators t.start
      written_back =
          (append-injective (numerators (scaled k t.start)) (numerators t.start)
            (simp length-be_bytes refl) starts).1

      same : t.start.denominator *ℤ pos k ≡ t.start.denominator
      same =
          sym (i64-be_bytes (scaled k t.start).denominator denominator_fits)
          ∙ ap (λ b. signed (from_be b)) written_back
          ∙ i64-be_bytes t.start.denominator range.start_canonical.denominator_fits

  -- Where the start of a valid range is written with both fields multiplied by k > 1 and still
  -- fits, the bytes decode to the command of the reduced range, though they are not its canonical
  -- bytes.
  pub from_canonical_bytes-written :
      (from_canonical_bytes (canonical_bytes (move_clip clip (written k t)))
        ≡ ok (move_clip clip t))
      × (canonical_bytes (move_clip clip (written k t)) ≢ canonical_bytes (move_clip clip t))
  unfolding from_canonical_bytes
  from_canonical_bytes-written = (
    finished-Decodes read_command (canonical_bytes (move_clip clip (written k t)))
        (move_clip clip t) (omega (arith, length-move_clip clip (written k t) clip_array.0))
        written-Decodes,
    written-ne-canonical,
  )

-- ===== src/Wire/Reader/Times.antt =====
-- Reading rationals and ranges from their canonical bytes.
use stitch_editor.Prelude.{true, ◌≡◌, refl, ◌∙◌, ap, arith, ◌≢◌}
use stitch_editor.Prelude.Int.{ℤ, pos}
use stitch_editor.Prelude.Result.{ok}
use stitch_editor.Time.Rational.{Rational, ◌<ᵣ◌}
use stitch_editor.Time.Rational
use stitch_editor.Time.Rational.Canonical.{IsCanonical, FitsI64}
use stitch_editor.Time.Rational.Exact.{new_iff}
use stitch_editor.Time.Range.{TimeRange, IsRange, new-ordered}
use stitch_editor.Wire.Bytes.{
  be_bytes, from_be, bits_of, signed, signed-bits_of, bits_of-lt, from_be-be_bytes,
}
use stitch_editor.Wire.Encode.{rational_bytes, range_bytes}
use stitch_editor.Wire.Reader.{array, rational, time_range}
use stitch_editor.Wire.Reader.Decodes.{Decodes, Decodes-bind, Decodes-map, be-Decodes}

-- `from_be_bytes` after `to_be_bytes` on an i64.
pub i64-be_bytes : (z : ℤ) → FitsI64 z → signed (from_be (be_bytes 8 (bits_of z))) ≡ z
i64-be_bytes z h = ap signed (from_be-be_bytes 8 (bits_of z) (bits_of-lt z h)) ∙ signed-bits_of z h

new-canonical : (q : Rational) → IsCanonical q → Rational.new q.numerator q.denominator ≡ ok q
new-canonical q c =
    (new_iff q.numerator q.denominator q c.numerator_fits c.denominator_fits).1 (nonzero, c, refl)
  where
    nonzero : q.denominator ≢ pos 0
    nonzero e = absurd (ground arith)

-- The fields are read as written and then normalised.
pub rational-Decodes_of :
    (p q : Rational)
    → FitsI64 p.numerator
    → FitsI64 p.denominator
    → Rational.new p.numerator p.denominator ≡ ok q
    → Decodes rational (rational_bytes p) q
unfolding rational rational_bytes
rational-Decodes_of p q hn hd e =
    Decodes-bind (array 8) _ (be_bytes 8 (bits_of p.numerator)) (be_bytes 8 (bits_of p.denominator))
      (be_bytes 8 (bits_of p.numerator)) q (be-Decodes 8 (bits_of p.numerator))
      (Decodes-map (array 8) _ (be_bytes 8 (bits_of p.denominator))
        (be_bytes 8 (bits_of p.denominator)) q (be-Decodes 8 (bits_of p.denominator))
        (λ r. rw (i64-be_bytes p.numerator hn, i64-be_bytes p.denominator hd, e)))

pub rational-Decodes : (q : Rational) → IsCanonical q → Decodes rational (rational_bytes q) q
rational-Decodes q c =
    rational-Decodes_of q q c.numerator_fits c.denominator_fits (new-canonical q c)

pub time_range-Decodes_of :
    (start end : Rational) (t : TimeRange)
    → Decodes rational (rational_bytes start) t.start
    → Decodes rational (rational_bytes end) t.end
    → (t.start <ᵣ t.end) ≡ true
    → Decodes time_range (range_bytes (record { start = start; end = end })) t
unfolding time_range range_bytes
time_range-Decodes_of start end t hs he ordered =
    Decodes-bind rational _ (rational_bytes start) (rational_bytes end) t.start t hs (
      Decodes-map rational _ (rational_bytes end) t.end t he
        (λ r. rw (new-ordered t.start t.end ordered)))

pub time_range-Decodes : (t : TimeRange) → IsRange t → Decodes time_range (range_bytes t) t
time_range-Decodes t h =
    time_range-Decodes_of t.start t.end t (rational-Decodes t.start h.start_canonical)
      (rational-Decodes t.end h.end_canonical) h.ordered

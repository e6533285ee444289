-- ===== src/Wire/Encode.antt =====
-- The writers of crates/contracts/src/lib.rs. Each gives the bytes that the source appends.
use stitch_editor.Prelude.{ℕ, ◌++◌, length}
use stitch_editor.Time.Rational.{Rational}
use stitch_editor.Time.Range.{TimeRange}
use stitch_editor.Wire.Bytes.{Bytes, be_bytes, bits_of}

unfoldable pub write_u32 : ℕ → Bytes
write_u32 value = be_bytes 4 value

-- A usize is written as a u64.
unfoldable pub write_u64 : ℕ → Bytes
write_u64 value = be_bytes 8 value

-- Length-prefixed bytes.
unfoldable pub write_bytes : Bytes → Bytes
unfolding write_u64
write_bytes value = write_u64 (length value) ++ value

-- `Rational::canonical_bytes`
unfoldable pub rational_bytes : Rational → Bytes
rational_bytes self = be_bytes 8 (bits_of self.numerator) ++ be_bytes 8 (bits_of self.denominator)

-- `TimeRange::canonical_bytes`
unfoldable pub range_bytes : TimeRange → Bytes
unfolding rational_bytes
range_bytes self = rational_bytes self.start ++ rational_bytes self.end

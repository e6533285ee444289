-- ===== src/Abi/Convert/RoundTrip.antt =====
-- The raw form of a command, and `command` of native/c-abi/rust/src/lib.rs on it.
use stitch_editor.Prelude.{ℕ, ◌≡◌, ◌≢◌, refl, subst, ap, replicate, arith}
use stitch_editor.Prelude.Int.{ℤ, pos, ◌<ℤ◌}
use stitch_editor.Prelude.Result.{ok, map_err}
use stitch_editor.Time.Rational.{Rational}
use stitch_editor.Time.Rational.Canonical.{IsCanonical}
use stitch_editor.Time.Rational.Exact.{new_iff}
use stitch_editor.Time.Range.{TimeRange, IsRange, new-ordered}
use stitch_editor.Wire.Bytes.{beq}
use stitch_editor.Model.Command.{
  Command, IsCommand, add_asset, add_track, add_clip, move_clip, remove_clip,
}
use stitch_editor.Abi.Types.{
  StitchRational, StitchTimeRange, StitchCommand, bad_rational, command_size,
}
use stitch_editor.Abi.Process.{valid_header, header}
use stitch_editor.Abi.Convert.{
  rational, range, zero_id, zero_digest, zero_range, no_other_ids, no_identity, no_ranges,
  to_add_asset, to_add_track, to_add_clip, to_move_clip, to_remove_clip, by_kind, command,
}

abbrev raw_rational : Rational → StitchRational
raw_rational r = record { numerator = r.numerator; denominator = r.denominator }

abbrev raw_range : TimeRange → StitchTimeRange
raw_range r = record { start = raw_rational r.start; end = raw_rational r.end }

abbrev zero_rational : StitchRational
zero_rational = record { numerator = pos 0; denominator = pos 0 }

abbrev empty_command : ℕ → StitchCommand
empty_command kind = record {
  header = header command_size;
  kind = kind;
  reserved = 0;
  primary_id = replicate 16 0;
  secondary_id = replicate 16 0;
  tertiary_id = replicate 16 0;
  content_sha256 = replicate 32 0;
  byte_length = 0;
  provider_id = replicate 16 0;
  timeline_range = record { start = zero_rational; end = zero_rational };
  source_range = record { start = zero_rational; end = zero_rational };
}

-- What a caller of the interface writes for a command.
unfoldable pub raw : Command → StitchCommand
raw (add_asset asset) = record (empty_command 1) {
  primary_id = asset.id;
  content_sha256 = asset.identity.content_sha256;
  byte_length = asset.identity.byte_length;
  provider_id = asset.identity.provider_id;
}
raw (add_track track_id) = record (empty_command 2) { primary_id = track_id }
raw (add_clip clip_id asset_id track_id timeline_range source_range) = record (empty_command 3) {
  primary_id = clip_id;
  secondary_id = asset_id;
  tertiary_id = track_id;
  timeline_range = raw_range timeline_range;
  source_range = raw_range source_range;
}
raw (move_clip clip_id timeline_range) = record (empty_command 4) {
  primary_id = clip_id;
  timeline_range = raw_range timeline_range;
}
raw (remove_clip clip_id) = record (empty_command 5) { primary_id = clip_id }

nonzero : (z : ℤ) → pos 0 <ℤ z → z ≢ pos 0
nonzero z h e = let zero_pos = subst (λ w. pos 0 <ℤ w) e h in omega (arith, zero_pos)

rational-raw : (r : Rational) → IsCanonical r → rational (raw_rational r) ≡ ok r
unfolding rational
rational-raw r c =
    ap (λ x. map_err x bad_rational)
      ((new_iff r.numerator r.denominator r c.numerator_fits c.denominator_fits).1
        (nonzero r.denominator c.denominator_pos, c, refl))

range-raw : (r : TimeRange) → IsRange r → range (raw_range r) ≡ ok r
unfolding range
range-raw r v = rw (rational-raw r.start v.start_canonical) (
    rw (rational-raw r.end v.end_canonical)
      (ap (λ x. map_err x bad_rational) (new-ordered r.start r.end v.ordered)))

-- A command whose ids, digests and lengths have the widths of their types and whose ranges are
-- valid is what its raw form converts to, the fields that it does not use being zero.
pub command-raw : (c : Command) → IsCommand c → command (raw c) ≡ ok c
unfolding command raw valid_header by_kind to_add_asset to_add_track to_add_clip to_move_clip
    to_remove_clip no_other_ids no_identity no_ranges zero_id zero_digest zero_range beq
command-raw (add_asset asset) h = refl
command-raw (add_track track_id) h = refl
command-raw (add_clip clip_id asset_id track_id timeline_range source_range) h =
    rw (range-raw timeline_range h.3, range-raw source_range h.4) refl
command-raw (move_clip clip_id timeline_range) h = rw (range-raw timeline_range h.1) refl
command-raw (remove_clip clip_id) h = refl

-- ===== src/Abi/Convert.antt =====
-- The conversions of the interface's values, native/c-abi/rust/src/lib.rs.
pub mod RoundTrip
use stitch_editor.Prelude.{Bool, not, ◌&&◌, ◌==◌, if◌then◌else◌, replicate}
use stitch_editor.Prelude.Int.{pos, ◌==ℤ◌}
use stitch_editor.Prelude.Result.{Result, ok, err, ◌>>=◌, ◌>>◌, fail_if, map_err}
use stitch_editor.Time.Rational.{Rational}
use stitch_editor.Time.Range.{TimeRange}
use stitch_editor.Wire.Bytes.{beq}
use stitch_editor.Model.Command.{Command, add_asset, add_track, add_clip, move_clip, remove_clip}
use stitch_editor.Abi.Types.{
  StitchDigest, StitchId, StitchRational, StitchTimeRange, StitchResult, StitchCommand,
  invalid_argument, bad_enum, bad_rational, command_size,
}
use stitch_editor.Abi.Process.{valid_header}

unfoldable pub rational : StitchRational → Result StitchResult Rational
rational value =
    map_err (stitch_editor.Time.Rational.new value.numerator value.denominator) bad_rational

unfoldable pub range : StitchTimeRange → Result StitchResult TimeRange
range value = do
  start ← rational value.start
  end ← rational value.end
  map_err (stitch_editor.Time.Range.new start end) bad_rational

unfoldable pub zero_id : StitchId → Bool
zero_id value = beq value (replicate 16 0)

unfoldable pub zero_digest : StitchDigest → Bool
zero_digest value = beq value (replicate 32 0)

unfoldable pub zero_range : StitchTimeRange → Bool
zero_range value =
    (value.start.numerator ==ℤ pos 0)
    && (value.start.denominator ==ℤ pos 0)
    && (value.end.numerator ==ℤ pos 0)
    && (value.end.denominator ==ℤ pos 0)

-- The tests that the arms of `command` make on the fields that their command does not use.
unfoldable pub no_other_ids : StitchCommand → Bool
no_other_ids value = zero_id value.secondary_id && zero_id value.tertiary_id

unfoldable pub no_identity : StitchCommand → Bool
no_identity value =
    zero_digest value.content_sha256 && (value.byte_length == 0) && zero_id value.provider_id

unfoldable pub no_ranges : StitchCommand → Bool
no_ranges value = zero_range value.timeline_range && zero_range value.source_range

unfoldable pub to_add_asset : StitchCommand → Result StitchResult Command
to_add_asset value = do
  fail_if (not (no_other_ids value && no_ranges value)) invalid_argument
  ok (
      add_asset (record {
        id = value.primary_id;
        identity = record {
          content_sha256 = value.content_sha256;
          byte_length = value.byte_length;
          provider_id = value.provider_id;
        };
      }))

unfoldable pub to_add_track : StitchCommand → Result StitchResult Command
to_add_track value = do
  fail_if (not (no_other_ids value && no_identity value && no_ranges value)) invalid_argument
  ok (add_track value.primary_id)

unfoldable pub to_add_clip : StitchCommand → Result StitchResult Command
to_add_clip value = do
  fail_if (not (no_identity value)) invalid_argument
  timeline_range ← range value.timeline_range
  source_range ← range value.source_range
  ok (add_clip value.primary_id value.secondary_id value.tertiary_id timeline_range source_range)

unfoldable pub to_move_clip : StitchCommand → Result StitchResult Command
to_move_clip value = do
  fail_if (not (no_other_ids value && no_identity value && zero_range value.source_range))
      invalid_argument
  timeline_range ← range value.timeline_range
  ok (move_clip value.primary_id timeline_range)

unfoldable pub to_remove_clip : StitchCommand → Result StitchResult Command
to_remove_clip value = do
  fail_if (not (no_other_ids value && no_identity value && no_ranges value)) invalid_argument
  ok (remove_clip value.primary_id)

-- `match value.kind`
unfoldable pub by_kind : StitchCommand → Result StitchResult Command
by_kind value =
    if value.kind == 1
    then to_add_asset value
    else if value.kind == 2
    then to_add_track value
    else if value.kind == 3
    then to_add_clip value
    else if value.kind == 4
    then to_move_clip value
    else if value.kind == 5
    then to_remove_clip value
    else err bad_enum

unfoldable pub command : StitchCommand → Result StitchResult Command
command value = do
  valid_header command_size value.header
  fail_if (not (value.reserved == 0)) invalid_argument
  by_kind value

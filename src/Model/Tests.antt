-- ===== src/Model/Tests.antt =====
-- Concrete commands and projects over `sorted`, and the theorems on them.
use stitch_editor.Prelude.{◌≡◌, ◌↔◌, ◌≢◌, refl, arith, [], ◌∷◌, ◌++◌, replicate}
use stitch_editor.Prelude.Int.{pos, ◌*ℤ◌}
use stitch_editor.Prelude.Result.{ok, err}
use stitch_editor.Ids.{ModelError, corrupt_project}
use stitch_editor.Time.Gcd.{gcd}
use stitch_editor.Time.Rational.{Rational, cmp}
use stitch_editor.Time.Rational.Canonical.{IsCanonical}
use stitch_editor.Time.Range.{TimeRange, IsRange}
use stitch_editor.Wire.Bytes.{Bytes, beq}
use stitch_editor.Crates.Assoc.{lookup}
use stitch_editor.Crates.SortedMaps.{sorted, insert_sorted}
use stitch_editor.Model.Command.{
  Asset, Command, canonical_bytes, from_canonical_bytes, add_asset, add_track, add_clip, move_clip,
  remove_clip,
}
use stitch_editor.Model.Command.RoundTrip.{from_canonical_bytes-canonical_bytes}
use stitch_editor.Model.Command.PrefixFree.{from_canonical_bytes-append}
use stitch_editor.Model.Command.Scaled.{written, from_canonical_bytes-written}
use stitch_editor.Model.Project.{
  Project, default, reduce, reduce_add_asset, reduce_add_track, reduce_add_clip,
}
use stitch_editor.Model.Project.Invariant.{IsWellFormed, default-IsWellFormed}
use stitch_editor.Model.Project.Refusals.{Refuses}
use stitch_editor.Model.Project.Reduce.{Accepts, reduce_iff, reduce-IsWellFormed}
use stitch_editor.Model.Project.View.{view, edit, reduce-view}
use stitch_editor.Model.Project.Undoing.{remove_clip-add_clip}

abbrev zero_time : Rational
zero_time = record { numerator = pos 0; denominator = pos 1 }

abbrev second : Rational
second = record { numerator = pos 1; denominator = pos 1 }

abbrev first_second : TimeRange
first_second = record { start = zero_time; end = second }

zero_time-IsCanonical : IsCanonical zero_time
unfolding gcd
zero_time-IsCanonical = record {
  numerator_fits = omega arith;
  denominator_fits = omega arith;
  denominator_pos = omega arith;
  coprime = refl;
}

second-IsCanonical : IsCanonical second
unfolding gcd
second-IsCanonical = record {
  numerator_fits = omega arith;
  denominator_fits = omega arith;
  denominator_pos = omega arith;
  coprime = refl;
}

first_second-IsRange : IsRange first_second
unfolding cmp ◌*ℤ◌
first_second-IsRange = record {
  start_canonical = zero_time-IsCanonical;
  end_canonical = second-IsCanonical;
  ordered = refl;
}

abbrev id_7 : Bytes
id_7 = replicate 16 7

abbrev move_7 : Command
move_7 = move_clip id_7 first_second

from_canonical_bytes-canonical_bytes_example :
    from_canonical_bytes (canonical_bytes move_7) ≡ ok move_7
from_canonical_bytes-canonical_bytes_example =
    from_canonical_bytes-canonical_bytes move_7 (omega arith, first_second-IsRange)

from_canonical_bytes-append_example :
    from_canonical_bytes (canonical_bytes move_7 ++ 0 ∷ []) ≡ err corrupt_project
from_canonical_bytes-append_example =
    from_canonical_bytes-append (canonical_bytes move_7) 0 []
      from_canonical_bytes-canonical_bytes_example

from_canonical_bytes-written_example :
    (from_canonical_bytes (canonical_bytes (move_clip id_7 (written 2 first_second)))
      ≡ ok (move_clip id_7 first_second))
    × (canonical_bytes (move_clip id_7 (written 2 first_second))
        ≢ canonical_bytes (move_clip id_7 first_second))
unfolding ◌*ℤ◌
from_canonical_bytes-written_example =
    from_canonical_bytes-written id_7 first_second 2 (omega arith) first_second-IsRange
      (omega arith) (omega arith) (omega arith)

-- A project with an asset, a track and a clip on it.
abbrev film : Asset
film = record {
  id = id_7;
  identity = record { content_sha256 = replicate 32 1; byte_length = 9; provider_id = id_7 };
}

abbrev with_film : Project sorted
with_film = record (default sorted) { assets = (sorted.insert id_7 film sorted.empty).0 }

film_added : reduce sorted (default sorted) (add_asset film) ≡ ok with_film
unfolding reduce reduce_add_asset default lookup
film_added = refl

with_film-IsWellFormed : IsWellFormed sorted with_film
with_film-IsWellFormed =
    reduce-IsWellFormed sorted (default sorted) (default-IsWellFormed sorted) (add_asset film)
      with_film film_added

abbrev with_track : Project sorted
with_track = record with_film {
  tracks = (sorted.insert id_7 (record { id = id_7; clip_ids = [] }) sorted.empty).0;
}

track_added : reduce sorted with_film (add_track id_7) ≡ ok with_track
unfolding reduce reduce_add_track default lookup
track_added = refl

reduce-IsWellFormed_example : IsWellFormed sorted with_track
reduce-IsWellFormed_example =
    reduce-IsWellFormed sorted with_film with_film-IsWellFormed (add_track id_7) with_track
      track_added

reduce_iff_example :
    (((q : Project sorted) × (reduce sorted with_film (remove_clip id_7) ≡ ok q))
      ↔ Accepts sorted with_film (remove_clip id_7))
    × ((e : ModelError)
        → (reduce sorted with_film (remove_clip id_7) ≡ err e)
          ↔ Refuses sorted with_film (remove_clip id_7) e)
reduce_iff_example = reduce_iff sorted with_film with_film-IsWellFormed (remove_clip id_7)

abbrev add_7 : Command
add_7 = add_clip id_7 id_7 id_7 first_second first_second

abbrev with_clip : Project sorted
with_clip = record with_track {
  tracks = (sorted.insert id_7 (record { id = id_7; clip_ids = id_7 ∷ [] }) with_track.tracks).0;
  clips =
      (sorted.insert id_7
        (record {
          id = id_7;
          asset_id = id_7;
          track_id = id_7;
          timeline_range = first_second;
          source_range = first_second;
        })
        with_track.clips).0;
}

clip_added : reduce sorted with_track add_7 ≡ ok with_clip
unfolding reduce reduce_add_clip lookup beq default insert_sorted
clip_added = refl

remove_clip-add_clip_example : reduce sorted with_clip (remove_clip id_7) ≡ ok with_track
remove_clip-add_clip_example =
    remove_clip-add_clip sorted with_track reduce-IsWellFormed_example id_7 id_7 id_7 first_second
      first_second with_clip clip_added

reduce-view_example : view sorted with_clip ≡ edit (view sorted with_track) add_7
reduce-view_example =
    reduce-view sorted with_track reduce-IsWellFormed_example add_7 with_clip clip_added

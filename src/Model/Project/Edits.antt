-- ===== src/Model/Project/Edits.antt =====
-- The well-formedness of a project, and the branches of `reduce` that move and remove.
use stitch_editor.Prelude.{◌≡◌, some, arith}
use stitch_editor.Ids.{ClipId}
use stitch_editor.Time.Range.{TimeRange}
use stitch_editor.Wire.Bytes.{beq_iff}
use stitch_editor.Crates.Im.{Im}
use stitch_editor.Model.Project.{Track, Clip, Project, without}
use stitch_editor.Model.Project.Placement.{count-without}
use stitch_editor.Model.Project.Invariant.{IsWellFormed}

module _ (im : Im) where
  open im use {Map, get, insert, remove, from_iter, iter, get-insert, get-remove, iter-from_iter}

  module _ (p : Project im) (w : IsWellFormed im p) (clip_id : ClipId) (clip : Clip)
      (found : get clip_id p.clips ≡ some clip) where
    pub move_clip-IsWellFormed :
        (range : TimeRange)
        → IsWellFormed im (record p {
          clips = (insert clip_id (record clip { timeline_range = range }) p.clips).0;
        })
    move_clip-IsWellFormed range = record {
      asset_ids = w.asset_ids;
      track_ids = w.track_ids;
      clip_ids = λ k c h. ground (
        arith,
        rw get-insert at h,
        beq_iff clip_id k,
        w.clip_ids k c,
        w.clip_ids clip_id clip found,
      );
      placed = λ k c t h. rw get-insert ground (arith, beq_iff clip_id c, w.placed k c t h);
      homes = λ k c h. ground (arith, rw get-insert at h, w.homes k c, w.homes clip_id clip found);
      sources =
          λ k c h. ground (arith, rw get-insert at h, w.sources k c, w.sources clip_id clip found);
    }

    module _ (track : Track im) (home : get clip.track_id p.tracks ≡ some track) where
      pub remove_clip-IsWellFormed : IsWellFormed im (record p {
        tracks =
            (insert clip.track_id
              (record track { clip_ids = from_iter (without clip_id (iter track.clip_ids)) })
              p.tracks).0;
        clips = (remove clip_id p.clips).0;
      })
      remove_clip-IsWellFormed = record {
        asset_ids = w.asset_ids;
        track_ids = λ k t h. ground (
          arith,
          rw get-insert at h,
          beq_iff clip.track_id k,
          w.track_ids k t,
          w.track_ids clip.track_id track home,
        );
        clip_ids = λ k c h. ground (arith, rw get-remove at h, w.clip_ids k c);
        placed = λ k c t h. rw get-remove ground (
          arith,
          rw get-insert at h,
          beq_iff clip.track_id k,
          beq_iff clip_id c,
          iter-from_iter (without clip_id (iter track.clip_ids)),
          count-without c clip_id (iter track.clip_ids),
          w.placed k c t,
          w.placed clip.track_id c track home,
        );
        homes = λ k c h. rw get-insert ground (arith, rw get-remove at h, w.homes k c);
        sources = λ k c h. ground (arith, rw get-remove at h, w.sources k c);
      }

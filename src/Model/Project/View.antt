-- ===== src/Model/Project/View.antt =====
-- A project as what can be looked up in it, and `reduce` against an edit of that view.
use stitch_editor.Prelude.{
  ◌≡◌, refl, ap, ◌∙◌, true, false, Option, none, some, List, [], ◌∷◌, ◌++◌, if◌then◌else◌, arith,
  inl, inr, Option-cases, Bool-cases,
}
use stitch_editor.Prelude.Result.{ok}
use stitch_editor.Ids.{ClipId}
use stitch_editor.Time.Range.{TimeRange}
use stitch_editor.Wire.Bytes.{Bytes, beq, beq_iff}
use stitch_editor.Crates.Im.{Im}
use stitch_editor.Model.Command.{
  Asset, Command, add_asset, add_track, add_clip, move_clip, remove_clip,
}
use stitch_editor.Model.Project.{Track, Clip, Project, without, reduce}
use stitch_editor.Model.Project.Placement.{count, owns}
use stitch_editor.Model.Project.Invariant.{IsWellFormed}
use stitch_editor.Model.Project.Steps.{
  Step, step_add_asset, step_add_track, step_add_clip, step_move_clip, step_remove_clip,
  reduce-Step,
}

pub record View : Type 0 where
  pub asset_at : Bytes → Option Asset
  pub clip_at : Bytes → Option Clip
  pub order_at : Bytes → Option (List ClipId)

abbrev pub order_of : (im : Im) → Option (Track im) → Option (List ClipId)
order_of im none = none
order_of im (some track) = some (im.iter track.clip_ids)

unfoldable pub view : (im : Im) → Project im → View
view im p = record {
  asset_at = λ k. im.get k p.assets;
  clip_at = λ k. im.get k p.clips;
  order_at = λ k. order_of im (im.get k p.tracks);
}

abbrev pub on_order : (List ClipId → List ClipId) → Option (List ClipId) → Option (List ClipId)
on_order f none = none
on_order f (some order) = some (f order)

abbrev pub retimed : TimeRange → Option Clip → Option Clip
retimed range none = none
retimed range (some clip) = some (record clip { timeline_range = range })

-- What each command does to the view.
unfoldable pub edit : View → Command → View
edit v (add_asset asset) = record v {
  asset_at = λ k. if beq asset.id k then some asset else v.asset_at k;
}
edit v (add_track track_id) = record v {
  order_at = λ k. if beq track_id k then some [] else v.order_at k;
}
edit v (add_clip clip_id asset_id track_id timeline_range source_range) = record v {
  clip_at = λ k.
      if beq clip_id k
      then some (record {
        id = clip_id;
        asset_id = asset_id;
        track_id = track_id;
        timeline_range = timeline_range;
        source_range = source_range;
      })
      else v.clip_at k;
  order_at = λ k.
      if beq track_id k
      then on_order (λ order. order ++ clip_id ∷ []) (v.order_at k)
      else v.order_at k;
}
edit v (move_clip clip_id timeline_range) = record v {
  clip_at = λ k. if beq clip_id k then retimed timeline_range (v.clip_at k) else v.clip_at k;
}
edit v (remove_clip clip_id) = record v {
  clip_at = λ k. if beq clip_id k then none else v.clip_at k;
  order_at = λ k. on_order (without clip_id) (v.order_at k);
}

without-none : (c : ClipId) (xs : List ClipId) → count c xs ≡ 0 → without c xs ≡ xs
unfolding count without
without-none c [] h = refl
without-none c (x ∷ xs) h = ground (arith, without-none c xs)

module _ (im : Im) (p : Project im) (w : IsWellFormed im p) where
  open im use {
    get, insert, get-insert, get-remove, iter, iter-new, iter-push_back, from_iter, iter-from_iter,
  }

  order-insert :
      (k j : Bytes) (t : Track im)
      → order_of im (get k (insert j t p.tracks).0)
        ≡ (if beq j k then some (iter t.clip_ids) else order_of im (get k p.tracks))
  order-insert k j t = rw get-insert (ground arith)

  order-at :
      (k j : Bytes) (t : Track im)
      → get j p.tracks ≡ some t
      → beq j k ≡ true
      → order_of im (get k p.tracks) ≡ some (iter t.clip_ids)
  order-at k j t e same = ground (arith, e, beq_iff j k)

  order-created :
      (k j : Bytes)
      → order_of im (get k (insert j (record { id = j; clip_ids = im.vector_new }) p.tracks).0)
        ≡ (if beq j k then some [] else order_of im (get k p.tracks))
  order-created k j =
      rw (order-insert k j (record { id = j; clip_ids = im.vector_new }), iter-new) refl

  order-pushed :
      (k j : Bytes) (clip_id : ClipId) (t : Track im)
      → get j p.tracks ≡ some t
      → order_of im
          (get k (insert j (record t { clip_ids = im.push_back t.clip_ids clip_id }) p.tracks).0)
        ≡ (if beq j k
            then on_order (λ order. order ++ clip_id ∷ []) (order_of im (get k p.tracks))
            else order_of im (get k p.tracks))
  order-pushed k j clip_id t home =
      rw
        (order-insert k j (record t { clip_ids = im.push_back t.clip_ids clip_id }), iter-push_back)
        (ground (arith, order-at k j t home))

  clip-retimed :
      (k clip_id : Bytes) (clip : Clip) (range : TimeRange)
      → get clip_id p.clips ≡ some clip
      → get k (insert clip_id (record clip { timeline_range = range }) p.clips).0
        ≡ (if beq clip_id k then retimed range (get k p.clips) else get k p.clips)
  clip-retimed k clip_id clip range found = rw get-insert (ground (arith, found, beq_iff clip_id k))

  module _ (clip_id : ClipId) (clip : Clip) (track : Track im)
      (found : get clip_id p.clips ≡ some clip)
      (home : get clip.track_id p.tracks ≡ some track) where
    -- The clip is on no other track.
    order-elsewhere :
        (k : Bytes)
        → beq clip.track_id k ≡ false
        → order_of im (get k p.tracks) ≡ on_order (without clip_id) (order_of im (get k p.tracks))
    order-elsewhere k other = elim (Option-cases (get k p.tracks)) [
      | inl e ↦ rw e refl
      | inr (t, e) ↦
          rw
            (
              e,
              without-none clip_id (iter t.clip_ids)
                  (w.placed k clip_id t e ∙ ap (owns k) found ∙ rw other refl),
            )
            refl
    ]

    order-removed :
        (k : Bytes)
        → order_of im (
            get k
              (insert clip.track_id
                (record track { clip_ids = from_iter (without clip_id (iter track.clip_ids)) })
                p.tracks).0)
          ≡ on_order (without clip_id) (order_of im (get k p.tracks))
    order-removed k = elim (Bool-cases (beq clip.track_id k)) [
      | inl same ↦
          rw (get-insert, same, order-at k clip.track_id track home same, iter-from_iter) refl
      | inr other ↦ rw (get-insert, other) (order-elsewhere k other)
    ]

  Step-view :
      (command : Command) (q : Project im)
      → Step im p command q
      → view im q ≡ edit (view im p) command
  unfolding view edit
  Step-view command q (step_add_asset asset fresh) =
      λ i. record (view im p) { asset_at = λ k. get-insert asset.id k asset p.assets i }
  Step-view command q (step_add_track track_id fresh) =
      λ i. record (view im p) { order_at = λ k. order-created k track_id i }
  Step-view command q (step_add_clip clip track fresh source home) = λ i. record (view im p) {
    clip_at = λ k. get-insert clip.id k clip p.clips i;
    order_at = λ k. order-pushed k clip.track_id clip.id track home i;
  }
  Step-view command q (step_move_clip clip_id clip timeline_range found) =
      λ i. record (view im p) { clip_at = λ k. clip-retimed k clip_id clip timeline_range found i }
  Step-view command q (step_remove_clip clip_id clip track found home) = λ i. record (view im p) {
    clip_at = λ k. get-remove clip_id k p.clips i;
    order_at = λ k. order-removed clip_id clip track found home k i;
  }

  -- Where a command succeeds on a well-formed project, what can be looked up afterwards, the
  -- assets, the clips and the order of the clips on each track, is the edit of the command on what
  -- could be looked up before: an entry added, a clip appended to its track, its range replaced,
  -- or the clip taken out of every order.
  pub reduce-view :
      (command : Command) (q : Project im)
      → reduce im p command ≡ ok q
      → view im q ≡ edit (view im p) command
  reduce-view command q h = Step-view command q (reduce-Step im p command q h)

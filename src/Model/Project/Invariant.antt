-- ===== src/Model/Project/Invariant.antt =====
-- The well-formedness of a project, and the branches of `reduce` that add.
use stitch_editor.Prelude.{◌≡◌, refl, true, none, some, arith, inl, inr, Option-cases}
use stitch_editor.Ids.{TrackId, ClipId}
use stitch_editor.Wire.Bytes.{Bytes, beq_iff, beq_refl}
use stitch_editor.Crates.Im.{Im, is_some}
use stitch_editor.Model.Command.{Asset}
use stitch_editor.Model.Project.{Track, Clip, Project, default}
use stitch_editor.Model.Project.Placement.{count, count-nil, count-snoc, owns}

-- Values carry their key; a track lists exactly the clips that name it, each once; a clip names a
-- track and an asset that are there.
pub record IsWellFormed (im : Im) (p : Project im) : Type 0 where
  pub asset_ids : (k : Bytes) (a : Asset) → im.get k p.assets ≡ some a → a.id ≡ k
  pub track_ids : (k : Bytes) (t : Track im) → im.get k p.tracks ≡ some t → t.id ≡ k
  pub clip_ids : (k : Bytes) (c : Clip) → im.get k p.clips ≡ some c → c.id ≡ k
  pub placed :
      (k c : Bytes) (t : Track im)
      → im.get k p.tracks ≡ some t
      → count c (im.iter t.clip_ids) ≡ owns k (im.get c p.clips)
  pub homes :
      (k : Bytes) (c : Clip)
      → im.get k p.clips ≡ some c
      → is_some (im.get c.track_id p.tracks) ≡ true
  pub sources :
      (k : Bytes) (c : Clip)
      → im.get k p.clips ≡ some c
      → is_some (im.get c.asset_id p.assets) ≡ true

module _ (im : Im) where
  open im use {
    Map, get, contains_key, insert, remove, empty, vector_new, push_back, from_iter, iter,
    get-empty, contains_key-get, get-insert, get-remove, iter-new, iter-push_back, iter-from_iter,
  }

  pub default-IsWellFormed : IsWellFormed im (default im)
  unfolding default
  default-IsWellFormed = record {
    asset_ids = λ k a h. cc (h, get-empty Asset k);
    track_ids = λ k t h. cc (h, get-empty (Track im) k);
    clip_ids = λ k c h. cc (h, get-empty Clip k);
    placed = λ k c t h. cc (h, get-empty (Track im) k);
    homes = λ k c h. cc (h, get-empty Clip k);
    sources = λ k c h. cc (h, get-empty Clip k);
  }

  module _ (p : Project im) (w : IsWellFormed im p) where
    pub add_asset-IsWellFormed :
        (asset : Asset) → IsWellFormed im (record p { assets = (insert asset.id asset p.assets).0 })
    add_asset-IsWellFormed asset = record {
      asset_ids = λ k a h. ground (arith, rw get-insert at h, beq_iff asset.id k, w.asset_ids k a);
      track_ids = w.track_ids;
      clip_ids = w.clip_ids;
      placed = w.placed;
      homes = w.homes;
      sources = λ k c h. rw get-insert (ground (arith, w.sources k c h));
    }

    -- No clip names a track that is not there.
    unowned :
        (track_id c : Bytes) → get track_id p.tracks ≡ none → owns track_id (get c p.clips) ≡ 0
    unowned track_id c missing = elim (Option-cases (get c p.clips)) [
      | inl e ↦ rw e refl
      | inr (clip, e) ↦ rw e (ground (arith, w.homes c clip e, beq_iff clip.track_id track_id))
    ]

    pub add_track-IsWellFormed :
        (track_id : TrackId)
        → get track_id p.tracks ≡ none
        → IsWellFormed im (record p {
          tracks = (insert track_id (record { id = track_id; clip_ids = vector_new }) p.tracks).0;
        })
    add_track-IsWellFormed track_id missing = record {
      asset_ids = w.asset_ids;
      track_ids = λ k t h. ground (arith, rw get-insert at h, beq_iff track_id k, w.track_ids k t);
      clip_ids = w.clip_ids;
      placed = λ k c t h. ground (
        arith,
        rw get-insert at h,
        beq_iff track_id k,
        unowned track_id c missing,
        iter-new ClipId,
        count-nil c,
        w.placed k c t,
      );
      homes = λ k c h. rw get-insert (ground (arith, w.homes k c h));
      sources = w.sources;
    }

    module _ (clip : Clip) (t0 : Track im) (fresh : get clip.id p.clips ≡ none)
        (source : is_some (get clip.asset_id p.assets) ≡ true)
        (home : get clip.track_id p.tracks ≡ some t0) where
      pub add_clip-IsWellFormed : IsWellFormed im (record p {
        tracks =
            (insert clip.track_id
              (record t0 { clip_ids = push_back t0.clip_ids clip.id })
              p.tracks).0;
        clips = (insert clip.id clip p.clips).0;
      })
      add_clip-IsWellFormed = record {
        asset_ids = w.asset_ids;
        track_ids = λ k t h. ground (
          arith,
          rw get-insert at h,
          beq_iff clip.track_id k,
          w.track_ids k t,
          w.track_ids clip.track_id t0 home,
        );
        clip_ids = λ k c h. ground (arith, rw get-insert at h, beq_iff clip.id k, w.clip_ids k c);
        placed = λ k c t h. rw get-insert ground (
          arith,
          rw get-insert at h,
          beq_iff clip.track_id k,
          beq_iff clip.id c,
          iter-push_back t0.clip_ids clip.id,
          count-snoc c clip.id (iter t0.clip_ids),
          w.placed k c t,
          w.placed clip.track_id c t0 home,
        );
        homes = λ k c h. rw get-insert ground (
          arith,
          rw get-insert at h,
          beq_iff clip.id k,
          beq_iff clip.track_id c.track_id,
          beq_refl clip.track_id,
          w.homes k c,
        );
        sources = λ k c h. ground (arith, rw get-insert at h, w.sources k c);
      }

-- ===== src/Model/Project/Placement.antt =====
-- How often a clip stands in a track's list, and what pushing and filtering do to that.
use stitch_editor.Prelude.{
  ℕ, suc, ◌+◌, ◌≡◌, refl, List, [], ◌∷◌, ◌++◌, arith, if◌then◌else◌, Option, none, some,
}
use stitch_editor.Ids.{ClipId}
use stitch_editor.Wire.Bytes.{Bytes, beq, beq_iff}
use stitch_editor.Model.Project.{without, Clip}

unfoldable pub count : ClipId → List ClipId → ℕ
count k [] = 0
count k (entry ∷ rest) = if beq entry k then suc (count k rest) else count k rest

pub count-nil : (k : ClipId) → count k [] ≡ 0
unfolding count
count-nil k = refl

pub count-append : (k : ClipId) (xs ys : List ClipId) → count k (xs ++ ys) ≡ count k xs + count k ys
unfolding count
count-append k [] ys = omega arith
count-append k (x ∷ xs) ys = ground (arith, count-append k xs ys)

pub count-snoc :
    (k c : ClipId) (xs : List ClipId)
    → count k (xs ++ c ∷ []) ≡ (if beq c k then suc (count k xs) else count k xs)
unfolding count
count-snoc k c xs = ground (arith, count-append k xs (c ∷ []))

pub count-without :
    (k c : ClipId) (xs : List ClipId) → count k (without c xs) ≡ (if beq c k then 0 else count k xs)
unfolding count without
count-without k c [] = ground arith
count-without k c (x ∷ xs) =
    ground (arith, beq_iff x c, beq_iff x k, beq_iff c k, count-without k c xs)

-- 1 where the clip is on the track, else 0.
abbrev pub owns : Bytes → Option Clip → ℕ
owns track_id none = 0
owns track_id (some clip) = if beq clip.track_id track_id then 1 else 0

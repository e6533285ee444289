-- ===== src/Model/Command/RoundTrip.antt =====
-- `Command::from_canonical_bytes` after `Command::canonical_bytes`.
use stitch_editor.Prelude.{
  ℕ, ◌^◌, ◌≤◌, ◌<◌, ◌≡◌, refl, ap, [], ◌∷◌, ◌++◌, arith, length, length-append, append-nil, sym,
}
use stitch_editor.Prelude.Result.{ok}
use stitch_editor.Time.Range.{TimeRange}
use stitch_editor.Wire.Bytes.{Bytes, be_bytes, length-be_bytes}
use stitch_editor.Wire.Encode.{write_u32, rational_bytes, range_bytes}
use stitch_editor.Wire.Reader.{M, ◌>>=◌, new, array, u32, u64, byte, expect, time_range, finish}
use stitch_editor.Wire.Reader.Decodes.{
  At, advance, Decodes, Decodes-bind, Decodes-map, Decodes-return, array-Decodes, u32-Decodes,
  u64-Decodes, byte-Decodes, expect-Decodes,
}
use stitch_editor.Wire.Reader.Times.{time_range-Decodes}
use stitch_editor.Model.Command.{
  Asset, Command, add_asset, add_track, add_clip, move_clip, remove_clip, command_magic,
  asset_bytes, command_body, canonical_bytes, contract_schema_version, check_version, read_asset,
  read_add_clip, read_body, read_command, from_canonical_bytes, finished, IsAsset, IsCommand,
}

module _ {ℓ} {B : Type ℓ} (f : Bytes → M B) (n : ℕ) (xs ys : Bytes) (b : B) where
  pub array-then : length xs ≡ n → Decodes (f xs) ys b → Decodes (array n >>= f) (xs ++ ys) b
  array-then e = Decodes-bind (array n) f xs ys xs b (array-Decodes n xs e)

pub read_asset-Decodes :
    (asset : Asset) → IsAsset asset → Decodes read_asset (asset_bytes asset) asset
unfolding read_asset asset_bytes
read_asset-Decodes asset h = array-then _ 16 _ _ asset h.id_array.0 (
    array-then _ 32 _ _ asset h.content_array.0 (
      Decodes-bind u64 _ _ _ _ asset (u64-Decodes asset.identity.byte_length h.length_fits)
        (Decodes-map (array 16) _ _ _ asset (array-Decodes 16 _ h.provider_array.0) (λ r. refl))))

body-Decodes : (c : Command) → IsCommand c → Decodes (byte >>= read_body) (command_body c) c
unfolding read_body command_body read_add_clip
body-Decodes (add_asset asset) h =
    Decodes-bind byte read_body (1 ∷ []) (asset_bytes asset) 1 _ (byte-Decodes 1)
      (Decodes-map read_asset _ _ asset _ (read_asset-Decodes asset h) (λ r. refl))
body-Decodes (add_track t) h =
    Decodes-bind byte read_body (2 ∷ []) t 2 _ (byte-Decodes 2)
      (Decodes-map (array 16) _ _ t _ (array-Decodes 16 t h.0) (λ r. refl))
body-Decodes (add_clip c a t timeline source) h =
    Decodes-bind byte read_body (3 ∷ []) _ 3 _ (byte-Decodes 3) (
      array-then _ 16 c _ _ h.0.0 (
        array-then _ 16 a _ _ h.1.0 (
          array-then _ 16 t _ _ h.2.0 (
            Decodes-bind time_range _ _ _ timeline _ (time_range-Decodes timeline h.3)
              (Decodes-map time_range _ _ source _ (time_range-Decodes source h.4) (λ r. refl))))))
body-Decodes (move_clip c timeline) h =
    Decodes-bind byte read_body (4 ∷ []) _ 4 _ (byte-Decodes 4) (
      array-then _ 16 c _ _ h.0.0
        (Decodes-map time_range _ _ timeline _ (time_range-Decodes timeline h.1) (λ r. refl)))
body-Decodes (remove_clip c) h =
    Decodes-bind byte read_body (5 ∷ []) c 5 _ (byte-Decodes 5)
      (Decodes-map (array 16) _ _ c _ (array-Decodes 16 c h.0) (λ r. refl))

-- The magic and the version stand before the body.
pub header-Decodes :
    (body : Bytes) (c : Command)
    → Decodes (byte >>= read_body) body c
    → Decodes read_command (command_magic ++ (write_u32 contract_schema_version ++ body)) c
unfolding read_command write_u32
header-Decodes body c h =
    Decodes-bind (expect command_magic) _ command_magic _ tt c (expect-Decodes command_magic) (
      Decodes-bind u32 _ (be_bytes 4 1) body 1 c (u32-Decodes 1 (omega arith)) (
        Decodes-bind (check_version 1) (λ _. byte >>= read_body) [] body tt c (Decodes-return tt)
          h))

command-Decodes : (c : Command) → IsCommand c → Decodes read_command (canonical_bytes c) c
unfolding canonical_bytes
command-Decodes c h = header-Decodes (command_body c) c (body-Decodes c h)

-- The longest command has 132 bytes.
pub length-range_bytes : (t : TimeRange) → length (range_bytes t) ≡ 32
unfolding range_bytes rational_bytes
length-range_bytes t = simp (length-append, length-be_bytes) refl

ruleset sizes = (length-append, length-be_bytes, length-range_bytes)

pub length-move_clip :
    (clip : Bytes) (t : TimeRange)
    → length clip ≡ 16
    → length (canonical_bytes (move_clip clip t)) ≤ 132
unfolding canonical_bytes write_u32 command_body
length-move_clip clip t h = simp sizes (omega arith)

length-canonical_bytes : (c : Command) → IsCommand c → length (canonical_bytes c) ≤ 132
unfolding canonical_bytes write_u32 command_body asset_bytes
length-canonical_bytes (add_asset asset) h =
    simp sizes (omega (arith, h.id_array.0, h.content_array.0, h.provider_array.0))
length-canonical_bytes (add_track t) h = simp sizes (omega (arith, h.0))
length-canonical_bytes (add_clip c a t timeline source) h =
    simp sizes (omega (arith, h.0.0, h.1.0, h.2.0))
length-canonical_bytes (move_clip c timeline) h = length-move_clip c timeline h.0.0
length-canonical_bytes (remove_clip c) h = simp sizes (omega (arith, h.0))

-- A reader that reads all of its input is finished.
At-new : (xs : Bytes) → length xs < 2 ^ 64 → At (new xs) (xs ++ [])
At-new xs small = record {
  left = sym (append-nil xs);
  total = omega (arith, ap length (append-nil xs));
  small = small;
}

finish-all : (xs : Bytes) → finish (advance (new xs) (length xs)) ≡ ok tt
unfolding finish
finish-all xs = ground arith

pub finished-Decodes {ℓ} :
    {A : Type ℓ} (m : M A) (xs : Bytes) (a : A)
    → length xs < 2 ^ 64
    → Decodes m xs a
    → finished (m (new xs)) ≡ ok a
finished-Decodes m xs a small h =
    rw (h (new xs) [] (At-new xs small), finished) (rw (finish-all xs, finished) refl)

-- A command whose ids, digests and lengths have the widths of their types and whose ranges are
-- valid is read back from its canonical bytes.
pub from_canonical_bytes-canonical_bytes :
    (c : Command) → IsCommand c → from_canonical_bytes (canonical_bytes c) ≡ ok c
unfolding from_canonical_bytes
from_canonical_bytes-canonical_bytes c h =
    finished-Decodes read_command (canonical_bytes c) c (omega (arith, length-canonical_bytes c h))
      (command-Decodes c h)

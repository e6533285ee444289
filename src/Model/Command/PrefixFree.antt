-- ===== src/Model/Command/PrefixFree.antt =====
-- Trailing bytes behind an encoded command.
use stitch_editor.Prelude.{ℕ, ◌≡◌, refl, ◌∷◌, ◌++◌, ◌==◌, Bool-cases, inl, inr, length}
use stitch_editor.Prelude.Result.{Result, ok, err}
use stitch_editor.Ids.{ModelError, corrupt_project}
use stitch_editor.Wire.Bytes.{Bytes}
use stitch_editor.Wire.Reader.{
  Reader, M, ◌>>=◌, new, array, u32, u64, byte, expect, time_range, finish,
}
use stitch_editor.Wire.Reader.Extends.{
  Extends, Extends-bind, Extends-return, Extends-lift, Extends-if, expect-Extends, array-Extends,
  u32-Extends, u64-Extends, byte-Extends, time_range-Extends, finish-extend,
}
use stitch_editor.Model.Command.{
  Command, add_asset, add_track, move_clip, remove_clip, command_magic, contract_schema_version,
  check_version, read_asset, read_add_clip, read_body, read_command, from_canonical_bytes, finished,
}

module _ {ℓ} {B : Type ℓ} (f : Bytes → M B) (n : ℕ) where
  pub array-then : ((xs : Bytes) → Extends (f xs)) → Extends (array n >>= f)
  array-then h = Extends-bind (array n) f (array-Extends n) h

pub read_asset-Extends : Extends read_asset
unfolding read_asset
read_asset-Extends = array-then _ 16 (λ id. array-then _ 32 (λ sha.
    Extends-bind u64 _ u64-Extends (λ length. array-then _ 16 (λ provider. Extends-return _))))

read_add_clip-Extends : Extends read_add_clip
unfolding read_add_clip
read_add_clip-Extends = array-then _ 16 (λ clip. array-then _ 16 (λ asset. array-then _ 16 (λ track.
    Extends-bind time_range _ time_range-Extends
      (λ timeline. Extends-bind time_range _ time_range-Extends (λ source. Extends-return _)))))

read_body-Extends : (tag : ℕ) → Extends (read_body tag)
unfolding read_body
read_body-Extends tag =
    Extends-if (tag == 1)
      (Extends-bind read_asset _ read_asset-Extends (λ asset. Extends-return (add_asset asset)))
      (Extends-if (tag == 2) (array-then _ 16 (λ track. Extends-return (add_track track))) (
        Extends-if (tag == 3) read_add_clip-Extends (
          Extends-if (tag == 4)
            (array-then _ 16 (λ clip.
              Extends-bind time_range _ time_range-Extends
                (λ timeline. Extends-return (move_clip clip timeline))))
            (Extends-if (tag == 5) (array-then _ 16 (λ clip. Extends-return (remove_clip clip)))
              (Extends-lift (err corrupt_project))))))

pub check_version-Extends : (version : ℕ) → Extends (check_version version)
check_version-Extends version =
    Extends-if (version == contract_schema_version) (Extends-return tt)
      (Extends-lift (err corrupt_project))

read_command-Extends : Extends read_command
unfolding read_command
read_command-Extends = Extends-bind (expect command_magic) _ (expect-Extends command_magic) (λ _.
    Extends-bind u32 _ u32-Extends (λ version.
      Extends-bind (check_version version) _ (check_version-Extends version)
        (λ _. Extends-bind byte _ byte-Extends read_body-Extends)))

finish_accepted {ℓ} :
    {A : Type ℓ} (r : Reader) (a : A) {b : A} → finished (ok (a, r)) ≡ ok b → finish r ≡ ok tt
unfolding finish
finish_accepted r a h = elim (Bool-cases (r.offset == length r.input)) [
  | inl whole ↦ rw whole refl
  | inr short ↦ cc (rw (short, finished) at h)
]

-- A reader accepts no proper extension of what it accepts whole.
finished-extend {ℓ} :
    {A : Type ℓ} (m : M A) (xs : Bytes) (b : ℕ) (more : Bytes) {a : A}
    → Extends m
    → (x : Result ModelError (A × Reader)) → m (new xs) ≡ x
    → finished x ≡ ok a
    → finished (m (new (xs ++ b ∷ more))) ≡ err corrupt_project
finished-extend m xs b more h (err e) found accepted = cc
finished-extend m xs b more h (ok (a, r)) found accepted =
    rw (h (new xs) r a (b ∷ more) found, finished)
      (rw (finish-extend r b more (finish_accepted r a accepted), finished) refl)

-- Where bytes decode to a command, no longer input that begins with them does: it is reported as
-- corrupt.
pub from_canonical_bytes-append :
    (bytes : Bytes) (b : ℕ) (more : Bytes) {c : Command}
    → from_canonical_bytes bytes ≡ ok c
    → from_canonical_bytes (bytes ++ b ∷ more) ≡ err corrupt_project
unfolding from_canonical_bytes
from_canonical_bytes-append bytes b more h =
    finished-extend read_command bytes b more read_command-Extends (read_command (new bytes)) refl h

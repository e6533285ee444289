-- ===== src/Abi/Unchanged/Leases.antt =====
-- The failing calls on frame leases, native/c-abi/rust/src/lib.rs.
use stitch_editor.Prelude.{sym, ap, ◌∙◌, ◌≡◌, ◌≢◌, refl, Bool, ℕ, Option, some}
use stitch_editor.Crates.Im.{Im, Sha256}
use stitch_editor.Abi.Types.{success, StitchFrameMetadata, StitchDigest, LeaseState}
use stitch_editor.Abi.Process.{
  Op, Process, ThreadId, CoreState, store_core, core, writes, ◌>>=◌, found, return,
}
use stitch_editor.Abi.Table.{get, get-insert_self}
use stitch_editor.Abi.Lease.{
  lease_transition, stitch_frame_lease_register, stitch_frame_lease_metadata_get,
  stitch_frame_lease_acquire, stitch_frame_lease_discard, stitch_frame_lease_submit,
  stitch_frame_lease_complete, stitch_frame_lease_retire,
}
use stitch_editor.Abi.Safe.{Sure, Safe, safely, reading, ffi-failed, Keeps-Safe, Safe-nested}

module _ (im : Im) (sha : Sha256) (thread : ThreadId) where
  lease_transition-Safe :
      (handle lease device : ℕ) (expected next : LeaseState)
      → Safe (lease_transition im sha thread handle lease device expected next)
  unfolding lease_transition
  lease_transition-Safe handle lease device expected next = search (safely) depth 12

  pub register-failed :
      (handle : ℕ) (metadata : Option StitchFrameMetadata) (out_lease : Bool) (out : Bool)
      (p : Process im)
      → (stitch_frame_lease_register im sha thread handle metadata out_lease out p).result ≢ success
      → (stitch_frame_lease_register im sha thread handle metadata out_lease out p).process ≡ p
  unfolding stitch_frame_lease_register
  register-failed handle metadata out_lease out p failed =
      ffi-failed out _ p (search (safely) depth 16) failed

  pub lease_metadata-failed :
      (handle : ℕ) (lease : ℕ) (out_metadata : Bool) (out : Bool) (p : Process im)
      → (stitch_frame_lease_metadata_get im sha thread handle lease out_metadata out p).result
        ≢ success
      → (stitch_frame_lease_metadata_get im sha thread handle lease out_metadata out p).process ≡ p
  unfolding stitch_frame_lease_metadata_get
  lease_metadata-failed handle lease out_metadata out p failed =
      ffi-failed out _ p (Keeps-Safe _ (search (reading) depth 16)) failed

  pub acquire-failed :
      (handle : ℕ) (lease : ℕ) (device : ℕ) (epoch : ℕ) (revision : Option StitchDigest)
      (out : Bool) (p : Process im)
      → (stitch_frame_lease_acquire im sha thread handle lease device epoch revision out p).result
        ≢ success
      → (stitch_frame_lease_acquire im sha thread handle lease device epoch revision out p).process
        ≡ p
  unfolding stitch_frame_lease_acquire
  acquire-failed handle lease device epoch revision out p failed =
      ffi-failed out _ p (search (safely, lease_transition-Safe) depth 16) failed

  pub lease_discard-failed :
      (handle : ℕ) (lease : ℕ) (device : ℕ) (out : Bool) (p : Process im)
      → (stitch_frame_lease_discard im sha thread handle lease device out p).result ≢ success
      → (stitch_frame_lease_discard im sha thread handle lease device out p).process ≡ p
  unfolding stitch_frame_lease_discard
  lease_discard-failed handle lease device out p failed =
      ffi-failed out _ p (search safely depth 16) failed

  pub lease_submit-failed :
      (handle : ℕ) (lease : ℕ) (device : ℕ) (out : Bool) (p : Process im)
      → (stitch_frame_lease_submit im sha thread handle lease device out p).result ≢ success
      → (stitch_frame_lease_submit im sha thread handle lease device out p).process ≡ p
  unfolding stitch_frame_lease_submit
  lease_submit-failed handle lease device out p failed =
      ffi-failed out _ p (search (safely, lease_transition-Safe) depth 16) failed

  pub lease_complete-failed :
      (handle : ℕ) (lease : ℕ) (device : ℕ) (out : Bool) (p : Process im)
      → (stitch_frame_lease_complete im sha thread handle lease device out p).result ≢ success
      → (stitch_frame_lease_complete im sha thread handle lease device out p).process ≡ p
  unfolding stitch_frame_lease_complete
  lease_complete-failed handle lease device out p failed =
      ffi-failed out _ p (search (safely, lease_transition-Safe) depth 16) failed

  after-core :
      {A : Type 0} (handle : ℕ) (state : CoreState im) (rest : CoreState im → Op im A)
      (p : Process im)
      → get handle p.cores ≡ some state
      → (core handle >>= rest) p ≡ rest state p
  unfolding core ◌>>=◌ found return
  after-core handle state rest p e = rw e refl

  -- A core that was just stored is there.
  stored_core-Sure :
      (handle : ℕ) (state : CoreState im) (f : CoreState im → CoreState im)
      → Sure (
          store_core handle state
          >>= (λ _. core handle >>= (λ stored. store_core handle (f stored))))
  unfolding store_core writes ◌>>=◌
  stored_core-Sure handle state f = record {
    sure = λ p e failed. cc (
        sym (
          ap (λ x. x.1)
            (after-core handle state (λ stored. store_core handle (f stored)) _
              (get-insert_self handle state p.cores)))
        ∙ failed);
  }

  pub lease_retire-failed :
      (handle lease device : ℕ) (out : Bool) (p : Process im)
      → (stitch_frame_lease_retire im sha thread handle lease device out p).result ≢ success
      → (stitch_frame_lease_retire im sha thread handle lease device out p).process ≡ p
  unfolding stitch_frame_lease_retire lease_transition
  lease_retire-failed handle lease device out p failed =
      ffi-failed out _ p (search (safely, Safe-nested, stored_core-Sure) depth 16) failed

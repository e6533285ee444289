-- ===== src/Abi/Reentrant.antt =====
-- The calls of native/c-abi/rust/src/lib.rs from inside a diff callback.
use stitch_editor.Prelude.{
  ◌≡◌, refl, ap, Bool, true, false, ℕ, Option, some, List, [], ◌∷◌, map, arith,
}
use mathlib.Core.Path.{fun_ext}
use stitch_editor.Prelude.Result.{ok, err}
use stitch_editor.Crates.Im.{Im, Sha256}
use stitch_editor.Abi.Types.{
  StitchResult, invalid_argument, reentrant_mutation, StitchCommandBatch, StitchFrameMetadata,
  StitchDigest,
}
use stitch_editor.Abi.Process.{
  Process, ThreadId, ◌>>=◌, stop_if, fail, return, writable, not_in_callback, finish, ffi, writes,
  Op, lift, output, ◌>>◌,
}
use stitch_editor.Abi.Batch.{apply_all}
use stitch_editor.Abi.Core.{
  stitch_core_destroy, stitch_core_set_epoch, stitch_core_submit, admitted, commit, set_callback,
  run_callback,
}
use stitch_editor.Abi.Lease.{
  stitch_frame_lease_register, stitch_frame_lease_acquire, stitch_frame_lease_discard,
  stitch_frame_lease_submit, stitch_frame_lease_complete, stitch_frame_lease_retire,
}
use stitch_editor.Abi.Calls.{
  Call, perform, core_destroy, core_set_epoch, core_submit, lease_register, lease_acquire,
  lease_discard, lease_submit, lease_complete, lease_retire,
}

-- The calls that change a core that is there.
pub data Mutates (im : Im) : Call im → Type 0 where
  mutates_destroy : (handle : ℕ) → Mutates im (core_destroy handle)
  mutates_epoch : (handle epoch : ℕ) → Mutates im (core_set_epoch handle epoch)
  mutates_submit :
      (handle : ℕ) (batch : Option StitchCommandBatch)
      (callback : Option (ℕ → Process im → Process im)) (out_diff : Bool)
      → Mutates im (core_submit handle batch callback out_diff)
  mutates_register :
      (handle : ℕ) (metadata : Option StitchFrameMetadata) (out_lease : Bool)
      → Mutates im (lease_register handle metadata out_lease)
  mutates_acquire :
      (handle lease device epoch : ℕ) (revision : Option StitchDigest)
      → Mutates im (lease_acquire handle lease device epoch revision)
  mutates_discard : (handle lease device : ℕ) → Mutates im (lease_discard handle lease device)
  mutates_lease_submit : (handle lease device : ℕ) → Mutates im (lease_submit handle lease device)
  mutates_complete : (handle lease device : ℕ) → Mutates im (lease_complete handle lease device)
  mutates_retire : (handle lease device : ℕ) → Mutates im (lease_retire handle lease device)

-- What such a call reports: a submission without storage for its diff handle stops before it looks
-- for a callback.
abbrev pub reported : {im : Im} → Call im → StitchResult
reported (core_submit handle batch callback false) = invalid_argument
reported _ = reentrant_mutation

module _ (im : Im) (sha : Sha256) (thread : ThreadId) (out : Bool) (p : Process im)
    (inside : p.in_callback thread ≡ true) where
  refused_here : not_in_callback thread p ≡ (p, err reentrant_mutation)
  unfolding not_in_callback stop_if fail
  refused_here = rw inside refl

  admitted-reentrant :
      (handle : ℕ) (batch : Option StitchCommandBatch)
      → admitted im sha thread handle batch p ≡ (p, err reentrant_mutation)
  unfolding admitted ◌>>=◌
  admitted-reentrant handle batch = rw refused_here refl

  perform-reentrant :
      (call : Call im) → Mutates im call → perform im sha thread out call p ≡ (p, reported call)
  unfolding perform stitch_core_destroy stitch_core_set_epoch stitch_core_submit
      stitch_frame_lease_register stitch_frame_lease_acquire stitch_frame_lease_discard
      stitch_frame_lease_submit stitch_frame_lease_complete stitch_frame_lease_retire ◌>>=◌ stop_if
      fail return writable not_in_callback finish ffi
  perform-reentrant call (mutates_destroy handle) = rw inside refl
  perform-reentrant call (mutates_epoch handle epoch) = rw inside refl
  perform-reentrant call (mutates_submit handle batch callback true) =
      rw (admitted-reentrant handle batch) refl
  perform-reentrant call (mutates_submit handle batch callback false) = refl
  perform-reentrant call (mutates_register handle metadata out_lease) = rw inside refl
  perform-reentrant call (mutates_acquire handle lease device epoch revision) = rw inside refl
  perform-reentrant call (mutates_discard handle lease device) = rw inside refl
  perform-reentrant call (mutates_lease_submit handle lease device) = rw inside refl
  perform-reentrant call (mutates_complete handle lease device) = rw inside refl
  perform-reentrant call (mutates_retire handle lease device) = rw inside refl

abbrev pub AllMutate : (im : Im) → List (Call im) → Type 0
AllMutate im [] = Unit
AllMutate im (call ∷ rest) = Mutates im call × AllMutate im rest

module _ (im : Im) (sha : Sha256) (thread : ThreadId) (out : Bool) where
  -- The calls one after the other, with their results.
  unfoldable pub perform_all : List (Call im) → Process im → Process im × List StitchResult
  perform_all [] p = (p, [])
  perform_all (call ∷ rest) p =
      let (next, result) = perform im sha thread out call p in
      let (last, results) = perform_all rest next in (last, result ∷ results)

  perform_all-reentrant :
      (calls : List (Call im)) (p : Process im)
      → p.in_callback thread ≡ true
      → AllMutate im calls
      → perform_all calls p ≡ (p, map reported calls)
  unfolding perform_all
  perform_all-reentrant [] p inside h = refl
  perform_all-reentrant (call ∷ rest) p inside h =
      rw
        (
          perform-reentrant im sha thread out p inside call h.0,
          perform_all-reentrant rest p inside h.1,
        )
        refl

  set_callback-inside :
      (p : Process im) → (set_callback im sha thread true p).in_callback thread ≡ true
  set_callback-inside p = ground arith

  run_callback-reentrant :
      (calls : ℕ → List (Call im)) (id : ℕ) (p : Process im)
      → AllMutate im (calls id)
      → run_callback im sha thread (some (λ id q. (perform_all (calls id) q).0)) id p
        ≡ run_callback im sha thread (some (λ id q. q)) id p
  unfolding run_callback writes
  run_callback-reentrant calls id p h =
      ap (λ x. (set_callback im sha thread false x.0, ok tt))
        (perform_all-reentrant (calls id) _ (set_callback-inside p) h)

  -- A diff callback that makes calls that would change a core or a lease, on the thread that
  -- submits and whatever its diff handle, leaves the submission what it is with a callback that
  -- does nothing: the process, the diff handle, the detail and the result.
  pub submit-reentrant :
      (handle : ℕ) (batch : Option StitchCommandBatch) (calls : ℕ → List (Call im))
      (out_diff : Bool) (p : Process im)
      → ((id : ℕ) → AllMutate im (calls id))
      → stitch_core_submit im sha thread handle batch
          (some (λ id q. (perform_all (calls id) q).0))
          out_diff
          out
          p
        ≡ stitch_core_submit im sha thread handle batch (some (λ id q. q)) out_diff out p
  unfolding stitch_core_submit
  submit-reentrant handle batch calls out_diff p h =
      ap (λ (run : ℕ → Op im (Unit {0})). ffi out (with_run run) p)
        (fun_ext λ id. fun_ext λ q. run_callback-reentrant calls id q (h id))
    where
      with_run : (ℕ → Op im (Unit {0})) → Op im ℕ
      with_run run = do
        writable out_diff
        (state, commands) ← admitted im sha thread handle batch
        history ← lift (apply_all im sha commands state.history)
        id ← commit im sha thread handle state history
        written ← output out_diff id
        run id
        return written

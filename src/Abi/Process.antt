-- ===== src/Abi/Process.antt =====
-- The state behind native/c-abi/rust/src/lib.rs, and the calls' plumbing: handles, headers,
-- pointers and results. A pointer to read is none where it is null; a pointer to write is a test
-- that says whether there is storage. A call runs to its end before the next one starts, so no
-- lock is ever found poisoned or taken.
use stitch_editor.Prelude.{
  ℕ, suc, ◌%◌, ◌^◌, Bool, true, false, Option, none, some, ◌==◌, if◌then◌else◌, replicate,
}
use stitch_editor.Prelude.Result.{Result, ok, err}
use stitch_editor.Ids.{RevisionHash}
use stitch_editor.Crates.Im.{Im}
use stitch_editor.History.{EditorHistory}
use stitch_editor.Abi.Table.{Table, get, insert}
use stitch_editor.Abi.Types.{
  StitchHeader, StitchDigest, StitchResult, StitchResultDetail, StitchSnapshotMetadata,
  StitchDiffMetadata, StitchFrameMetadata, LeaseState, code, success, invalid_argument,
  unsupported_version, unknown_handle, malformed_struct, reentrant_mutation, model_error,
  result_detail_size,
}

abbrev pub ThreadId : Type 0
ThreadId = ℕ

pub record Lease : Type 0 where
  pub metadata : StitchFrameMetadata
  pub state : LeaseState
  pub owner : ThreadId

pub record CoreState (im : Im) : Type 0 where
  pub history : EditorHistory im
  pub epoch : ℕ
  pub leases : Table Lease
  pub owner : ThreadId

pub record RefHandle (V : Type 0) : Type 0 where
  pub value : V
  pub refs : ℕ

-- The statics, and the thread-local flag as a function of the thread.
pub record Process (im : Im) : Type 0 where
  pub next_handle : ℕ
  pub cores : Table (CoreState im)
  pub snapshots : Table (RefHandle StitchSnapshotMetadata)
  pub diffs : Table (RefHandle StitchDiffMetadata)
  pub in_callback : ThreadId → Bool

abbrev pub Op : Im → Type 0 → Type 0
Op im A = Process im → Process im × Result StitchResult A

-- What a caller gets back: the value stored behind the output pointer, the detail, the result.
pub record Returned (im : Im) (A : Type 0) : Type 0 where
  pub process : Process im
  pub written : Option A
  pub detail : Option StitchResultDetail
  pub result : StitchResult

abbrev pub abi_version : ℕ
abi_version = 1

-- `header::<T>()` for a type of the given size.
abbrev pub header : ℕ → StitchHeader
header size = record { struct_size = size; version = abi_version }

-- `detail`
unfoldable pub detail : Bool → StitchResult → Option StitchResultDetail
detail false result = none
detail true result = some (record {
  header = header result_detail_size;
  result = result;
  domain = if code result == code model_error then 2 else 1;
  diagnostic = code result;
})

-- `digest`
abbrev pub digest : Option RevisionHash → StitchDigest
digest none = replicate 32 0
digest (some value) = value

-- `valid_header::<T>` for a type of the given size.
unfoldable pub valid_header : ℕ → StitchHeader → Result StitchResult (Unit {0})
valid_header size header =
    if header.version == abi_version
    then (if header.struct_size == size then ok tt else err malformed_struct)
    else err unsupported_version

module _ {im : Im} where
  infixl 5 ◌>>=◌ ◌>>◌
  abbrev pub continue :
      {A B : Type 0}
      → Process im × Result StitchResult A
      → (A → Op im B)
      → Process im × Result StitchResult B
  continue (p, ok a) f = f a p
  continue (p, err e) f = (p, err e)

  unfoldable pub ◌>>=◌ : {A B : Type 0} → Op im A → (A → Op im B) → Op im B
  m >>= f = λ p. continue (m p) f

  abbrev pub ◌>>◌ : {B : Type 0} → Op im Unit → Op im B → Op im B
  first >> rest = first >>= λ _. rest

  unfoldable pub return : {A : Type 0} → A → Op im A
  return a = λ p. (p, ok a)

  unfoldable pub fail : {A : Type 0} → StitchResult → Op im A
  fail e = λ p. (p, err e)

  unfoldable pub lift : {A : Type 0} → Result StitchResult A → Op im A
  lift r = λ p. (p, r)

  unfoldable pub reads : {A : Type 0} → (Process im → A) → Op im A
  reads f = λ p. (p, ok (f p))

  unfoldable pub writes : (Process im → Process im) → Op im Unit
  writes f = λ p. (f p, ok tt)

  -- `if test { return Err(e); }`
  unfoldable pub stop_if : Bool → StitchResult → Op im Unit
  stop_if true e = fail e
  stop_if false e = return tt

  -- `.ok_or(e)?`
  unfoldable pub found : {A : Type 0} → Option A → StitchResult → Op im A
  found none e = fail e
  found (some a) e = return a

  -- `input`
  unfoldable pub input : {A : Type 0} → Option A → Op im A
  input pointer = found pointer invalid_argument

  -- `writable`
  unfoldable pub writable : Bool → Op im Unit
  writable true = return tt
  writable false = fail invalid_argument

  -- `output`: the value is what the call stores.
  unfoldable pub output : {A : Type 0} → Bool → A → Op im A
  output true value = return value
  output false value = fail invalid_argument

  -- `NEXT_HANDLE.fetch_add(1).max(1)` on a u64.
  unfoldable pub next_handle : Op im ℕ
  next_handle = λ p. (
    record p { next_handle = suc p.next_handle % 2 ^ 64 },
    ok (if p.next_handle == 0 then 1 else p.next_handle),
  )

  -- `core`
  unfoldable pub core : ℕ → Op im (CoreState im)
  core handle = λ p. found (get handle p.cores) unknown_handle p

  -- The state behind a core's lock, written back.
  unfoldable pub store_core : ℕ → CoreState im → Op im Unit
  store_core handle state = writes (λ p. record p { cores = insert handle state p.cores })

  -- `if IN_CALLBACK.with(Cell::get) { return ReentrantMutation; }`
  unfoldable pub not_in_callback : ThreadId → Op im Unit
  not_in_callback thread = λ p. stop_if (p.in_callback thread) reentrant_mutation p

  -- `ffi` and `ffi_try`
  unfoldable pub finish : {A : Type 0} → Bool → Process im × Result StitchResult A → Returned im A
  finish out (p, ok a) = record {
    process = p;
    written = some a;
    detail = detail out success;
    result = success;
  }
  finish out (p, err e) = record { process = p; written = none; detail = detail out e; result = e }

  unfoldable pub ffi : {A : Type 0} → Bool → Op im A → Process im → Returned im A
  ffi out operation p = finish out (operation p)

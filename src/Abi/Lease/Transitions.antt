-- ===== src/Abi/Lease/Transitions.antt =====
-- `lease_transition` of native/c-abi/rust/src/lib.rs.
use stitch_editor.Prelude.{
  ℕ, ◌≡◌, ◌↔◌, refl, sym, ap, ◌∙◌, subst, Bool, true, false, not, some, ◌==◌, arith, if◌then◌else◌,
}
use stitch_editor.Prelude.Result.{ok}
use stitch_editor.Crates.Im.{Im, Sha256}
use stitch_editor.Abi.Table.{get, insert}
use stitch_editor.Abi.Types.{
  StitchResult, LeaseState, registered, acquired, submitted, completed, retired, number, same_state,
  stale_device, invalid_argument, bad_lease_state,
}
use stitch_editor.Abi.Process.{
  ThreadId, Lease, CoreState, Process, Op, ◌>>=◌, ◌>>◌, return, fail, found, stop_if, core,
  store_core, writes,
}
use stitch_editor.Abi.Lease.{lease_transition}

state_of : ℕ → LeaseState
state_of n =
    if n == 1
    then registered
    else if n == 2
    then acquired
    else if n == 3
    then submitted
    else if n == 4
    then completed
    else retired

state_of-number : (a : LeaseState) → state_of (number a) ≡ a
unfolding state_of number
state_of-number registered = refl
state_of-number acquired = refl
state_of-number submitted = refl
state_of-number completed = refl
state_of-number retired = refl

same_state_iff : (a b : LeaseState) → (same_state a b ≡ true) ↔ (a ≡ b)
unfolding same_state
same_state_iff a b = (
  λ h. sym (state_of-number a) ∙ ap state_of (numbers (number a) (number b) h) ∙ state_of-number b,
  λ e. subst (λ c. (number a == number c) ≡ true) e (itself (number a)),
)
  where
    numbers : (m n : ℕ) → (m == n) ≡ true → m ≡ n
    numbers m n h = ground arith

    itself : (n : ℕ) → (n == n) ≡ true
    itself n = ground arith

equal_iff : (m n : ℕ) → ((m == n) ≡ true) ↔ (m ≡ n)
equal_iff m n = (λ h. ground arith, λ h. ground arith)

-- Three guards before a step that succeeds.
guards_iff :
    {im : Im} (a b c : Bool) (e f g : StitchResult) (m : Op im (Unit {0})) (p q : Process im)
    → m p ≡ (q, ok tt)
    → ((stop_if (not a) e >> (stop_if (not b) f >> (stop_if (not c) g >> m))) p ≡ (q, ok tt))
      ↔ ((a ≡ true) × (b ≡ true) × (c ≡ true))
unfolding stop_if ◌>>=◌ return fail
guards_iff true true true e f g m p q runs = (λ h. (refl, refl, refl), λ h. runs)
guards_iff false b c e f g m p q runs = (λ h. absurd (cc (ap (λ x. x.1) h)), λ h. absurd (cc h.0))
guards_iff true false c e f g m p q runs =
    (λ h. absurd (cc (ap (λ x. x.1) h)), λ h. absurd (cc h.1))
guards_iff true true false e f g m p q runs =
    (λ h. absurd (cc (ap (λ x. x.1) h)), λ h. absurd (cc h.2))

-- The lease and its metadata in a state, all else as it was.
abbrev pub in_state : LeaseState → Lease → Lease
in_state next lease = record {
  metadata = record lease.metadata { state = number next };
  state = next;
  owner = lease.owner;
}

module _ (im : Im) (sha : Sha256) (thread : ThreadId) where
  -- For a lease that is there, a transition succeeds and stores the lease with the next state in
  -- it and in its metadata, changing nothing else, exactly where the device generation is the one
  -- given, the calling thread registered the lease, and the lease is in the expected state.
  pub lease_transition_iff :
      (core_handle lease_id device : ℕ) (expected next : LeaseState) (p : Process im)
      (state : CoreState im) (lease : Lease)
      → get core_handle p.cores ≡ some state
      → get lease_id state.leases ≡ some lease
      → (lease_transition im sha thread core_handle lease_id device expected next p ≡ (
        record p {
          cores =
              insert core_handle
                (record state { leases = insert lease_id (in_state next lease) state.leases })
                p.cores;
        },
        ok tt,
      ))
        ↔ ((lease.metadata.device_generation ≡ device)
            × (lease.owner ≡ thread)
            × (lease.state ≡ expected))
  unfolding lease_transition ◌>>=◌ return fail found stop_if core store_core writes
  lease_transition_iff core_handle lease_id device expected next p state lease here there =
      rw (here, there)
        (let passed =
            guards_iff (lease.metadata.device_generation == device) (lease.owner == thread)
              (same_state lease.state expected) stale_device invalid_argument bad_lease_state
              (store_core core_handle
                (record state { leases = insert lease_id (in_state next lease) state.leases }))
              p _ refl in
          (
            λ h.
                let found = passed.0 h in
                (
                  (equal_iff _ _).0 found.0,
                  (equal_iff _ _).0 found.1,
                  (same_state_iff _ _).0 found.2,
                ),
            λ h.
                passed.1 ((equal_iff _ _).1 h.0, (equal_iff _ _).1 h.1, (same_state_iff _ _).1 h.2),
          ))

-- ===== src/Abi/Handles/Counts.antt =====
-- The reference counts of the handles.
use stitch_editor.Prelude.{
  ℕ, suc, ◌-◌, ◌^◌, ◌≤◌, ◌<◌, ◌≡◌, refl, Bool, true, false, Option, none, some, ◌==◌, if◌then◌else◌,
  arith,
}
use stitch_editor.Prelude.Result.{ok}
use stitch_editor.Abi.Table.{Table, get, insert, remove, get-insert, get-remove}
use stitch_editor.Abi.Process.{RefHandle}
use stitch_editor.Abi.Handles.{
  retain, retain_found, retain_entry, release, release_found, release_entry,
}

module _ {V : Type 0} where
  -- The number of references to a handle: none where it is not in the table.
  unfoldable pub refs_of : Option (RefHandle V) → ℕ
  refs_of none = 0
  refs_of (some entry) = entry.refs

  abbrev pub IsCounted : Table (RefHandle V) → Type 0
  IsCounted entries =
      (k : ℕ) (entry : RefHandle V)
      → get k entries ≡ some entry
      → (1 ≤ entry.refs) × (entry.refs < 2 ^ 32)

  refs_of-insert :
      (j k : ℕ) (entry : RefHandle V) (entries : Table (RefHandle V))
      → refs_of (get k (insert j entry entries))
        ≡ (if j == k then entry.refs else refs_of (get k entries))
  unfolding refs_of
  refs_of-insert j k entry entries = rw get-insert (ground arith)

  refs_of-remove :
      (j k : ℕ) (entries : Table (RefHandle V))
      → refs_of (get k (remove j entries)) ≡ (if j == k then 0 else refs_of (get k entries))
  unfolding refs_of
  refs_of-remove j k entries = rw get-remove (ground arith)

  refs_of-get :
      (j k : ℕ) (entry : RefHandle V) (entries : Table (RefHandle V))
      → get j entries ≡ some entry
      → (j == k) ≡ true
      → refs_of (get k entries) ≡ entry.refs
  unfolding refs_of
  refs_of-get j k entry entries e same = ground (arith, e)

  module _ (handle : ℕ) (entries : Table (RefHandle V)) (counted : IsCounted entries) where
    retain_found-refs :
        (o : Option (RefHandle V))
        → get handle entries ≡ o
        → (retain_found handle entries o).1 ≡ ok tt
        → (k : ℕ)
        → refs_of (get k (retain_found handle entries o).0)
          ≡ (if handle == k then suc (refs_of (get k entries)) else refs_of (get k entries))
    unfolding retain_found retain_entry
    retain_found-refs none e h k = absurd (cc h)
    retain_found-refs (some entry) e h k = ground (
      arith,
      refs_of-insert handle k (record entry { refs = suc entry.refs }) entries,
      refs_of-get handle k entry entries e,
    )

    release_found-refs :
        (o : Option (RefHandle V))
        → get handle entries ≡ o
        → (k : ℕ)
        → refs_of (get k (release_found handle entries o).0)
          ≡ (if handle == k then refs_of (get k entries) - 1 else refs_of (get k entries))
    unfolding release_found release_entry refs_of
    release_found-refs none e k = ground (arith, e)
    release_found-refs (some entry) e k = ground (
      arith,
      refs_of-insert handle k (record entry { refs = entry.refs - 1 }) entries,
      refs_of-remove handle k entries,
      refs_of-get handle k entry entries e,
      counted handle entry e,
    )

    retain_found-IsCounted :
        (o : Option (RefHandle V))
        → get handle entries ≡ o
        → IsCounted (retain_found handle entries o).0
    unfolding retain_found retain_entry
    retain_found-IsCounted none e = counted
    retain_found-IsCounted (some entry) e = retained (suc entry.refs == 2 ^ 32) refl
      where
        retained :
            (b : Bool)
            → (suc entry.refs == 2 ^ 32) ≡ b
            → IsCounted (retain_entry handle entry entries).0
        retained true full = rw full counted
        retained false room = rw room (λ k found h.
            ground (arith, rw get-insert at h, counted k found, counted handle entry e))

    release_found-IsCounted :
        (o : Option (RefHandle V))
        → get handle entries ≡ o
        → IsCounted (release_found handle entries o).0
    unfolding release_found release_entry
    release_found-IsCounted none e = counted
    release_found-IsCounted (some entry) e = released (entry.refs == 1) refl
      where
        released :
            (b : Bool) → (entry.refs == 1) ≡ b → IsCounted (release_entry handle entry entries)
        released true last =
            rw last (λ k found h. ground (arith, rw get-remove at h, counted k found))
        released false more = rw more (λ k found h.
            ground (arith, rw get-insert at h, counted k found, counted handle entry e))

    -- Where the counts of a table are positive and below 2^32 and retain succeeds, they stay so,
    -- the count of the handle is one more, and all others are the same.
    pub retain-refs :
        (retain handle entries).1 ≡ ok tt
        → IsCounted (retain handle entries).0
          × ((k : ℕ)
              → refs_of (get k (retain handle entries).0)
                ≡ (if handle == k then suc (refs_of (get k entries)) else refs_of (get k entries)))
    unfolding retain
    retain-refs h = (
      retain_found-IsCounted (get handle entries) refl,
      retain_found-refs (get handle entries) refl h,
    )

    -- Where the counts of a table are positive and below 2^32, release keeps them so, the count of
    -- the handle is one less, where a handle that is not there counts as 0, and all others are the
    -- same; so a handle goes with its last reference.
    pub release-refs :
        IsCounted (release handle entries).0
        × ((k : ℕ)
            → refs_of (get k (release handle entries).0)
              ≡ (if handle == k then refs_of (get k entries) - 1 else refs_of (get k entries)))
    unfolding release
    release-refs = (
      release_found-IsCounted (get handle entries) refl,
      release_found-refs (get handle entries) refl,
    )

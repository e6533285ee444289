-- ===== src/History/Moves.antt =====
-- `apply`, `undo` and `redo` of crates/editor-core/src/lib.rs after one another.
use stitch_editor.Prelude.{
  ℕ, zero, suc, ◌≤◌, ◌<◌, ◌≡◌, refl, sym, ap, ◌∙◌, subst, ◌==◌, true, false, some, List, [], ◌∷◌,
  ◌++◌, length, get_elem?, take, arith, length-take, length-append, Bool-cases, inl, inr,
}
use stitch_editor.Prelude.Result.{ok, err}
use stitch_editor.Ids.{RevisionHash, ModelError}
use stitch_editor.Crates.Im.{Im, Sha256}
use stitch_editor.Model.Command.{Command}
use stitch_editor.Model.Project.{Project, reduce}
use stitch_editor.History.{
  HistoryRevision, EditorHistory, entry_before, project_or_default, hash_of, project, current_hash,
  revision_count, record_revision, apply, undo, undo_at, redo, revision_hash,
}

module _ {ℓ} {A : Type ℓ} where
  entry_at-take :
      (xs : List A) (n : ℕ) (r : A) → n ≤ length xs → get_elem? (take n xs ++ r ∷ []) n ≡ some r
  entry_at-take xs zero r h = refl
  entry_at-take [] (suc n) r h = ground arith
  entry_at-take (x ∷ xs) (suc n) r h = entry_at-take xs n r (omega arith)

  get_elem?-take-lt :
      (xs : List A) (n i : ℕ) (r : A)
      → n ≤ length xs
      → i < n
      → get_elem? (take n xs ++ r ∷ []) i ≡ get_elem? xs i
  get_elem?-take-lt xs zero i r h l = ground arith
  get_elem?-take-lt [] (suc n) i r h l = ground arith
  get_elem?-take-lt (x ∷ xs) (suc n) zero r h l = refl
  get_elem?-take-lt (x ∷ xs) (suc n) (suc i) r h l =
      get_elem?-take-lt xs n i r (omega arith) (omega arith)

  entry_before-take :
      (xs : List A) (n : ℕ) (r : A)
      → n ≤ length xs
      → entry_before (take n xs ++ r ∷ []) n ≡ entry_before xs n
  entry_before-take xs zero r h = refl
  entry_before-take xs (suc n) r h = get_elem?-take-lt xs (suc n) n r h (omega arith)

less-ne : (m n : ℕ) → m < n → (m == n) ≡ false
less-ne m n h = ground arith

module _ (im : Im) (sha : Sha256) where
  -- The state that `apply` leaves when `reduce` gives `next`.
  advanced : EditorHistory im → HistoryRevision im → EditorHistory im
  advanced self r = record {
    revisions = take self.cursor self.revisions ++ r ∷ [];
    cursor = suc self.cursor;
  }

  length-advanced :
      (self : EditorHistory im) (r : HistoryRevision im)
      → self.cursor ≤ length self.revisions
      → length (advanced self r).revisions ≡ suc self.cursor
  unfolding advanced
  length-advanced self r h = omega (
    arith,
    length-append (take self.cursor self.revisions) (r ∷ []),
    length-take self.cursor self.revisions,
  )

  redo-before :
      (self : EditorHistory im) (before : ℕ)
      → before < length self.revisions
      → redo im sha (record self { cursor = before }) ≡ (record self { cursor = suc before }, true)
  unfolding redo
  redo-before self before h = rw (less-ne before (length self.revisions) h) refl

  redo-last :
      (self : EditorHistory im)
      → (self.cursor == length self.revisions) ≡ true
      → redo im sha self ≡ (self, false)
  unfolding redo
  redo-last self e = rw e refl

  redo-inner :
      (self : EditorHistory im)
      → (self.cursor == length self.revisions) ≡ false
      → redo im sha self ≡ (record self { cursor = suc self.cursor }, true)
  unfolding redo
  redo-inner self e = rw e refl

  redo-eq-true :
      (self next : EditorHistory im)
      → redo im sha self ≡ (next, true)
      → next ≡ record self { cursor = suc self.cursor }
  redo-eq-true self next h = elim (Bool-cases (self.cursor == length self.revisions)) [
    | inl e ↦ absurd (cc (ap (λ x. x.1) (sym h ∙ redo-last self e)))
    | inr e ↦ ap (λ x. x.0) (sym h ∙ redo-inner self e)
  ]

  redo-undo_at :
      (self next : EditorHistory im) (n : ℕ)
      → self.cursor ≡ n
      → n ≤ length self.revisions
      → undo_at im sha self n ≡ (next, true)
      → redo im sha next ≡ (self, true)
  unfolding redo undo_at
  redo-undo_at self next zero e valid h = cc h
  redo-undo_at self next (suc before) e valid h =
      subst (λ x. redo im sha x ≡ (self, true)) (ap (λ x. x.0) h)
        (redo-before self before valid ∙ ap (λ n. (record self { cursor = n }, true)) (sym e))

  -- Where the cursor is in bounds and undo reports true, redo gives the history back and reports
  -- true.
  pub redo-undo :
      (self next : EditorHistory im)
      → self.cursor ≤ length self.revisions
      → undo im sha self ≡ (next, true)
      → redo im sha next ≡ (self, true)
  unfolding undo
  redo-undo self next valid h = redo-undo_at self next self.cursor refl valid h

  -- Where redo reports true, undo gives the history back and reports true.
  pub undo-redo :
      (self next : EditorHistory im)
      → redo im sha self ≡ (next, true)
      → undo im sha next ≡ (self, true)
  unfolding undo undo_at redo
  undo-redo self next h = rw (redo-eq-true self next h) refl

  module _ (self : EditorHistory im) (r : HistoryRevision im)
      (valid : self.cursor ≤ length self.revisions) where
    at_advanced : entry_before (advanced self r).revisions (advanced self r).cursor ≡ some r
    unfolding advanced
    at_advanced = entry_at-take self.revisions self.cursor r valid

    project-advanced : project im sha (advanced self r) ≡ r.project
    unfolding project
    project-advanced = ap (project_or_default im) at_advanced

    hash-advanced : current_hash im sha (advanced self r) ≡ some r.hash
    unfolding current_hash
    hash-advanced = ap (hash_of im) at_advanced

    redo-advanced : (redo im sha (advanced self r)).1 ≡ false
    unfolding advanced
    redo-advanced =
        ap (λ x. x.1) (redo-last (advanced self r) (ground (arith, length-advanced self r valid)))

    undo-advanced :
        (project im sha (undo im sha (advanced self r)).0 ≡ project im sha self)
        × (current_hash im sha (undo im sha (advanced self r)).0 ≡ current_hash im sha self)
    unfolding advanced undo undo_at project current_hash
    undo-advanced =
        let e = entry_before-take self.revisions self.cursor r valid in
        (ap (project_or_default im) e, ap (hash_of im) e)

  module _ (self : EditorHistory im) (command : Command)
      (valid : self.cursor ≤ length self.revisions) where
    abbrev new_hash : RevisionHash
    new_hash = revision_hash sha (current_hash im sha self) command

    apply-eq-ok :
        (after : Project im)
        → reduce im (project im sha self) command ≡ ok after
        → apply im sha self command
          ≡ (advanced self (record { project = after; hash = new_hash }), ok new_hash)
    unfolding apply record_revision advanced
    apply-eq-ok after e = rw e refl

    -- Where the cursor is in bounds and the command succeeds on the current project, apply makes
    -- the result and its hash current, leaves nothing to redo and one revision more than the
    -- cursor stood at, and an undo then gives the former project and hash back.
    pub apply-ok :
        (after : Project im)
        → reduce im (project im sha self) command ≡ ok after
        → (next : EditorHistory im) × (apply im sha self command
            ≡ (next, ok (revision_hash sha (current_hash im sha self) command)))
          × (project im sha next ≡ after)
          × (current_hash im sha next ≡ some (revision_hash sha (current_hash im sha self) command))
          × (revision_count im sha next ≡ suc self.cursor)
          × ((redo im sha next).1 ≡ false)
          × (project im sha (undo im sha next).0 ≡ project im sha self)
          × (current_hash im sha (undo im sha next).0 ≡ current_hash im sha self)
    unfolding revision_count
    apply-ok after e =
        let r : HistoryRevision im = record { project = after; hash = new_hash } in
        (
          advanced self r,
          apply-eq-ok after e,
          project-advanced self r valid,
          hash-advanced self r valid,
          length-advanced self r valid,
          redo-advanced self r valid,
          (undo-advanced self r valid).0,
          (undo-advanced self r valid).1,
        )

    pub apply-err :
        (error : ModelError)
        → reduce im (project im sha self) command ≡ err error
        → apply im sha self command ≡ (self, err error)
    unfolding apply record_revision
    apply-err error e = rw e refl

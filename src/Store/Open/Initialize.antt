-- ===== src/Store/Open/Initialize.antt =====
-- A new database is initialized by `open_state` of crates/project-store/src/lib.rs, an old one is marked.
use stitch_editor.Prelude.{
  ℕ, ◌≡◌, refl, sym, ◌∙◌, subst, false, not, ◌||◌, ◌&&◌, none, some, List, [], ◌∷◌, ◌==◌,
  Bool-cases, inl, inr, ◌⊎◌, arith,
}
use stitch_editor.Wire.Bytes.{Bytes}
use stitch_editor.Store.{sql}
use stitch_editor.Store.Database.{Database}
use stitch_editor.Store.Host.{Host, Lawful}
use stitch_editor.Store.Host.Rules.{Outside, Inside, begin-Post, commit-Post}
use stitch_editor.Store.Monad.Post.{
  post_ok, post_err, Post-weaken, Post-bind, Post-converting, Post-transaction,
}
use stitch_editor.Store.Open.{
  application_id, user_version, create_tables, insert_metadata, initialize_store, initialize_if,
}
use stitch_editor.Store.Open.Calls.{Opens, Ends, quiet, writes}

-- The numbers that mark the file of a project.
abbrev pub IsMarked : Database → Type 0
IsMarked db = (db.application_id ≡ application_id) × (db.user_version ≡ user_version)

some_injective : {A : Type 0} (a b : A) → some a ≡ some b → a ≡ b
some_injective a b h = cc h

empty_or_not :
    {A : Type 0} (xs : List A) → (xs ≡ []) ⊎ ((x : A) × (rest : List A) × (xs ≡ x ∷ rest))
empty_or_not [] = inl refl
empty_or_not (x ∷ rest) = inr (x, rest, refl)

-- The five tables, or none where one is there.
create_tables-cases :
    (db : Database)
    → (create_tables db ≡ none)
      ⊎ ((made : Database) × (create_tables db ≡ some made) × IsMarked made)
unfolding create_tables
create_tables-cases db = elim (empty_or_not db.schema) [
  | inl e ↦ rw e (inr (_, refl, (refl, refl)))
  | inr (row, rest, e) ↦ rw e (inl refl)
]

create_tables-IsMarked : (db next : Database) → create_tables db ≡ some next → IsMarked next
create_tables-IsMarked db next h = elim (create_tables-cases db) [
  | inl e ↦ cc (e, h)
  | inr (made, e, marked) ↦ subst IsMarked (some_injective _ _ (sym e ∙ h)) marked
]

insert_metadata-IsMarked :
    (key value : Bytes) (db next : Database)
    → IsMarked db
    → insert_metadata key value db ≡ some next
    → IsMarked next
unfolding insert_metadata
insert_metadata-IsMarked key value db next marked h = subst IsMarked (some_injective _ _ h) marked

both_marked :
    (id version : ℕ)
    → (not (id == application_id) || not (version == user_version)) ≡ false
    → (id ≡ application_id) × (version ≡ user_version)
both_marked id version h = (ground arith, ground arith)

module _ (host : Host) (laws : Lawful host) (opens : Opens host) (c : host.Connection) where
  open host use {
    World, Connection, Error, query, execute, begin_immediate, commit_transaction, rollback,
    execute_batch, query_text, query_texts, query_integer, query_optional,
  }

  -- Some database that is marked.
  abbrev Ready : World → Type 0
  Ready w = (db : Database) × IsMarked db × Outside host laws c false db w

  initialize_store-Post :
      (db : Database) (w : World)
      → Outside host laws c false db w
      → Ends host laws opens c (λ _ t. Ready t) (initialize_store host c w)
  unfolding initialize_store
  initialize_store-Post db w out =
      Post-bind _ _ w (quiet host laws opens c _ db w (laws.settings-IsSame c w) out) λ _ w1 h1.
        Post-transaction {R' = λ e t. Unit} {P = Inside host laws c false db db} _ _ _ w1
          (Post-converting sql _ w1
            (Post-weaken _ (begin-Post host laws c false db w1 h1) (λ a t h. h) (λ e t h. tt)))
          (λ t within.
            Post-bind _ _ t (writes host laws opens c _ db db t within) λ _ t1 (made, e1, in1).
              Post-bind _ _ t1 (writes host laws opens c _ db made t1 in1) λ _ t2 (filled, e2, in2).
                Post-converting sql _ t2 (
                  Post-weaken _ (commit-Post host laws c false db filled t2 in2)
                    (λ a u h. (
                      filled,
                      insert_metadata-IsMarked _ _ made filled (create_tables-IsMarked db made e1)
                          e2,
                      h,
                    ))
                    (λ e u h. tt)))
          (λ e t h. tt)

  pub initialize_if-Post :
      (db : Database) (id version objects : ℕ) (w : World)
      → id ≡ db.application_id
      → version ≡ db.user_version
      → Outside host laws c false db w
      → Ends host laws opens c (λ _ t. Ready t) (initialize_if host c id version objects w)
  unfolding initialize_if
  initialize_if-Post db id version objects w e1 e2 out =
      elim (Bool-cases ((id == 0) && (version == 0) && (objects == 0))) [
        | inl fresh ↦ rw fresh (initialize_store-Post db w out)
        | inr old ↦
            elim (Bool-cases (not (id == application_id) || not (version == user_version))) [
              | inl other ↦ rw (old, other) (post_err tt)
              | inr marked ↦
                  let marks = both_marked id version marked in
                  rw (old, marked) (post_ok (db, (sym e1 ∙ marks.0, sym e2 ∙ marks.1), out))
            ]
      ]

-- ===== src/Store/Host/Calls.antt =====
-- The calls of crates/project-store/src/lib.rs on the database with their errors converted, and
-- its transactions.
use stitch_editor.Prelude.{◌≡◌, Bool, false, Option, some}
use stitch_editor.Store.Database.{Database}
use stitch_editor.Store.Host.{Host, Lawful}
use stitch_editor.Store.Host.Rules.{
  Outside, Inside, Undoable, query-Post, begin-Post, execute-Post, commit-Post, rollback-Outside,
}
use stitch_editor.Store.Monad.{M, converting, transaction}
use stitch_editor.Store.Monad.Post.{Post, Post-weaken, Post-converting, Post-transaction}

module _ (host : Host) (laws : Lawful host) (c : host.Connection) (sound : Bool) {F : Type 0}
    (Cause : F → Type 0) (convert : host.Error → F)
    (caused : (e : host.Error) → sound ≡ false → Cause (convert e)) where
  open host use {
    World, Connection, Error, database, saved, query, execute, begin_immediate, commit_transaction,
    rollback,
  }

  pub query_call :
      {A : Type 0} (f : Database → A) (db : Database) (w : World)
      → Outside host laws c sound db w
      → Post
          (λ a t. (a ≡ f db) × Outside host laws c sound db t)
          (λ e t. Cause e × Outside host laws c sound db t)
          (converting convert (query f c) w)
  query_call f db w h = Post-converting convert (query f c) w (
      Post-weaken (query f c w) (query-Post host laws c sound f db w h) (λ a t k. k)
        (λ e t k. (caused e k.0, k.1)))

  pub execute_call :
      (f : Database → Option Database) (start db next : Database) (w : World)
      → Inside host laws c sound start db w
      → f db ≡ some next
      → Post
          (λ _ t. Inside host laws c sound start next t)
          (λ e t. Cause e × Undoable host laws c sound start t)
          (converting convert (execute f c) w)
  execute_call f start db next w h applies = Post-converting convert (execute f c) w (
      Post-weaken (execute f c w) (execute-Post host laws c sound f start db next w h applies)
        (λ a t k. k) (λ e t k. (caused e k.0, k.1)))

  pub commit_call :
      (start db : Database) (w : World)
      → Inside host laws c sound start db w
      → Post
          (λ _ t. Outside host laws c sound db t)
          (λ e t. Cause e × Undoable host laws c sound start t)
          (converting convert (commit_transaction c) w)
  commit_call start db w h = Post-converting convert (commit_transaction c) w (
      Post-weaken (commit_transaction c w) (commit-Post host laws c sound start db w h) (λ a t k. k)
        (λ e t k. (caused e k.0, k.1)))

  -- A transaction whose body, where it fails, leaves what the rollback restores.
  pub transaction_call :
      {A : Type 0} {Q : A → World → Type 0} (body : M World F A) (db : Database) (w : World)
      → Outside host laws c sound db w
      → ((t : World)
          → Inside host laws c sound db db t
          → Post Q (λ e t. Cause e × Undoable host laws c sound db t) (body t))
      → Post Q
          (λ e t. Cause e × Outside host laws c sound db t)
          (transaction (converting convert (begin_immediate c)) (rollback c) body w)
  transaction_call {Q = Q} body db w h k =
      Post-transaction {Q = Q} {R' = λ e t. Cause e × Undoable host laws c sound db t}
        {P = Inside host laws c sound db db} (converting convert (begin_immediate c)) (rollback c)
        body w
        (Post-converting convert (begin_immediate c) w (
          Post-weaken (begin_immediate c w) (begin-Post host laws c sound db w h) (λ a t i. i)
            (λ e t i. (caused e i.0, i.1))))
        k (λ e t i. (i.0, rollback-Outside host laws c sound db t i.1))

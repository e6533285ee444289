-- ===== src/Store/Maintenance/Keeps.antt =====
-- The maintenance of crates/project-store/src/lib.rs on a store that holds a log.
use stitch_editor.Prelude.{
  ◌≡◌, refl, sym, ◌∙◌, subst, Bool, true, false, Option, none, some, arith, inl, inr, Bool-cases,
  Option-cases, ◌==◌,
}
use stitch_editor.Prelude.Result.{Result, ok_or}
use stitch_editor.Ids.{RevisionHash}
use stitch_editor.Crates.Im.{Im, Sha256}
use stitch_editor.Store.{
  StoreError, FaultPoint, MaintenanceError, maintenance, fault, is_at, corrupt_store,
}
use stitch_editor.Store.Database.{Database, insert_snapshot}
use stitch_editor.Store.Host.{Host, Lawful, IsSame}
use stitch_editor.Store.Host.Rules.{Outside}
use stitch_editor.Store.Host.Calls.{execute_call, commit_call, transaction_call}
use stitch_editor.Store.Monad.{M, lift, ◌>>=◌, ◌>>◌, converting, transaction, maintenance_fault}
use stitch_editor.Store.Monad.Post.{
  Post, post_ok, Post-of, Post-weaken, Post-bind, Post-converting, Post-fail_if,
}
use stitch_editor.Store.Maintenance.{
  State, Db, snapshot_row, write_snapshot, persist_missing, persist_snapshot, delete_old, compact,
  checkpoint,
}
use stitch_editor.Store.Log.Rows.{Log-HeadFits, HeadFits}
use stitch_editor.Store.Log.Stored.{Stored}
use stitch_editor.Store.Log.Snapshots.{
  KeepsLog, insert_snapshot-KeepsLog, delete_snapshots-KeepsLog, KeepsLog-trans,
}

module _ (host : Host) (laws : Lawful host) (im : Im) (sha : Sha256) (state : State im host)
    (start : Database) where
  open host use {World, Connection, Error}

  -- The tables are still the log of the state, with the revisions, receipts and head that they had.
  pub record Kept (w : World) : Type 0 where
    pub kept_db : Database
    pub kept_outside : Outside host laws state.connection false kept_db w
    pub kept_log : KeepsLog im sha start kept_db state.project state.head state.sequence

  pub data IsMaintenance : StoreError Error → Type 0 where
    is_maintenance : (m : MaintenanceError) → IsMaintenance (maintenance m)

  -- The call keeps the log, and an error of it is one of maintenance.
  abbrev pub Keeps : {A : Type 0} → World × Result (StoreError Error) A → Type 0
  Keeps {A = A} x = Post (λ (a : A) t. Kept t) (λ e t. IsMaintenance e × Kept t) x

  fault-Keeps :
      (at : Option FaultPoint) (point : FaultPoint) (w : World)
      → Kept w
      → Keeps (maintenance_fault at point w)
  unfolding maintenance_fault
  fault-Keeps at point w kept =
      Post-fail_if (is_at at point) _ w (λ e. (is_maintenance (fault point), kept)) (λ e. kept)

  -- One after the other.
  then-Keeps :
      {A B : Type 0} (m : Db host A) (f : A → Db host B) (w : World)
      → Keeps (m w)
      → ((a : A) (t : World) → Kept t → Keeps (f a t))
      → Keeps ((m >>= f) w)
  then-Keeps m f w first rest = Post-bind m f w first rest

  -- A call that leaves the tables as they are.
  same-Keeps :
      {A : Type 0} (m : MaintenanceError) (call : M World Error A) (w : World)
      → IsSame host state.connection w (call w).0
      → Kept w
      → Keeps (converting (λ _. maintenance m) call w)
  same-Keeps m call w same kept =
      Post-converting (λ _. maintenance m) call w
        (Post-of (call w) (λ a e. after) (λ e h. (is_maintenance m, after)))
    where
      after : Kept (call w).0
      after = record {
        kept_db = kept.kept_db;
        kept_outside = record {
          out_saved = same.same_saved ∙ kept.kept_outside.out_saved;
          out_database = same.same_database ∙ kept.kept_outside.out_database;
          out_sound = λ e. cc e;
        };
        kept_log = kept.kept_log;
      }

  -- A transaction of one statement.
  statement-Keeps :
      (m : MaintenanceError) (f : Database → Option Database) (next : Database) (w : World)
      (kept : Kept w)
      → f kept.kept_db ≡ some next
      → KeepsLog im sha start next state.project state.head state.sequence
      → Keeps (
          transaction
            (converting (λ _. maintenance m) (host.begin_immediate state.connection))
            (host.rollback state.connection)
            (converting (λ _. maintenance m) (host.execute f state.connection)
              >> converting (λ _. maintenance m) (host.commit_transaction state.connection))
            w)
  statement-Keeps m f next w kept applies keeps =
      Post-weaken _
        (transaction_call host laws state.connection false IsMaintenance (λ _. maintenance m)
          (λ e h. is_maintenance m) _ kept.kept_db w kept.kept_outside
          λ t inside.
            Post-bind _ _ t
              (execute_call host laws state.connection false IsMaintenance (λ _. maintenance m)
                (λ e h. is_maintenance m) f kept.kept_db kept.kept_db next t inside applies)
              λ _ u inside_next.
                commit_call host laws state.connection false IsMaintenance (λ _. maintenance m)
                  (λ e h. is_maintenance m) kept.kept_db next u inside_next)
        (λ a t out. record { kept_db = next; kept_outside = out; kept_log = keeps })
        (λ e t h.
          (h.0, record { kept_db = kept.kept_db; kept_outside = h.1; kept_log = kept.kept_log }))

  pub checkpoint-Keeps :
      (at : Option FaultPoint) (w : World) → Kept w → Keeps (checkpoint host state.connection at w)
  unfolding checkpoint
  checkpoint-Keeps at w kept = then-Keeps _ _ w (fault-Keeps at _ w kept) λ _ w1 kept1.
      then-Keeps _ _ w1 (fault-Keeps at _ w1 kept1) λ _ w2 kept2.
        then-Keeps _ _ w2 (same-Keeps _ _ w2 (laws.wal_checkpoint-IsSame state.connection w2) kept2)
          λ frames w3 kept3.
            then-Keeps _ _ w3 (Post-fail_if _ _ w3 (λ e. (is_maintenance _, kept3)) (λ e. kept3))
              λ _ w4 kept4.
                then-Keeps _ _ w4 (fault-Keeps at _ w4 kept4) λ _ w5 kept5. post_ok kept5

  insertion-Kept :
      (w : World) (kept : Kept w) (hash : RevisionHash)
      → state.head ≡ some hash
      → (next : Database) × (insert_snapshot (snapshot_row host im sha state hash) kept.kept_db
          ≡ some next)
        × KeepsLog im sha start next state.project state.head state.sequence
  insertion-Kept w kept hash is_head =
      let (next, applies, keeps) =
        insert_snapshot-KeepsLog im sha kept.kept_db (snapshot_row host im sha state hash)
          state.project hash state.sequence
          (subst (λ h. Stored im sha kept.kept_db state.project h state.sequence) is_head
            kept.kept_log.kept_stored)
          refl refl (record { same_hash = refl; same_project = refl; same_digest = refl }) in
      (
        next,
        applies,
        KeepsLog-trans im sha start kept.kept_db next state.project state.head state.sequence
            kept.kept_log
            (subst (λ h. KeepsLog im sha kept.kept_db next state.project h state.sequence)
              (sym is_head) keeps),
      )

  write_snapshot-Keeps :
      (w : World) (hash : RevisionHash)
      → Kept w
      → state.head ≡ some hash
      → Keeps (write_snapshot host im sha state hash w)
  unfolding write_snapshot
  write_snapshot-Keeps w hash kept is_head =
      let (next, applies, keeps) = insertion-Kept w kept hash is_head in
      statement-Keeps MaintenanceError.snapshot _ next w kept applies keeps

  persist_missing-Keeps :
      (at : Option FaultPoint) (exists : Bool) (w : World) (hash : RevisionHash)
      → Kept w
      → state.head ≡ some hash
      → Keeps (persist_missing host im sha state hash at exists w)
  unfolding persist_missing
  persist_missing-Keeps at true w hash kept is_head = post_ok kept
  persist_missing-Keeps at false w hash kept is_head =
      then-Keeps _ _ w (fault-Keeps at _ w kept) λ _ w1 kept1.
        then-Keeps _ _ w1 (write_snapshot-Keeps w1 hash kept1 is_head)
          λ _ w2 kept2. fault-Keeps at _ w2 kept2

  head_found :
      (head : Option RevisionHash) (w : World) (hash : RevisionHash)
      → head ≡ some hash
      → Kept w
      → Post
          (λ h t. (head ≡ some h) × Kept t)
          (λ e t. IsMaintenance e × Kept t)
          (lift (ok_or head corrupt_store) w)
  head_found none w hash is_head kept = cc is_head
  head_found (some found) w hash is_head kept = post_ok (refl, kept)

  persist_head-Keeps :
      (at : Option FaultPoint) (w : World) (hash : RevisionHash)
      → Kept w
      → state.head ≡ some hash
      → Keeps (persist_snapshot host im sha state at w)
  unfolding persist_snapshot
  persist_head-Keeps at w hash kept is_head = elim (Bool-cases (state.sequence == 0)) [
    | inl empty ↦ rw empty (post_ok kept)
    | inr nonempty ↦ rw nonempty (
        then-Keeps _ _ w (fault-Keeps at _ w kept) λ _ w1 kept1.
          Post-bind _ _ w1 (head_found state.head w1 hash is_head kept1) λ found w2 h.
            then-Keeps _ _ w2 (same-Keeps _ _ w2 (laws.query-IsSame _ state.connection w2) h.1)
              λ exists w3 kept3. persist_missing-Keeps at exists w3 found kept3 h.0)
  ]

  persist_empty-Keeps :
      (at : Option FaultPoint) (w : World)
      → Kept w
      → state.sequence ≡ 0
      → Keeps (persist_snapshot host im sha state at w)
  unfolding persist_snapshot
  persist_empty-Keeps at w kept empty =
      let e : (state.sequence == 0) ≡ true = ground arith in rw e (post_ok kept)

  pub persist_snapshot-Keeps :
      (at : Option FaultPoint) (w : World)
      → Kept w
      → Keeps (persist_snapshot host im sha state at w)
  persist_snapshot-Keeps at w kept = elim (Option-cases state.head) [
    | inl headless ↦ persist_empty-Keeps at w kept (
        subst (λ h. HeadFits h state.sequence) headless
          (Log-HeadFits im sha kept.kept_log.kept_stored.log))
    | inr (hash, is_head) ↦ persist_head-Keeps at w hash kept is_head
  ]

  delete_old-Keeps : (w : World) → Kept w → Keeps (delete_old host im sha state w)
  unfolding delete_old
  delete_old-Keeps w kept =
      let (next, applies, keeps) =
        delete_snapshots-KeepsLog im sha kept.kept_db state.project state.head state.sequence
          kept.kept_log.kept_stored in
      statement-Keeps MaintenanceError.compaction _ next w kept applies (
        KeepsLog-trans im sha start kept.kept_db next state.project state.head state.sequence
          kept.kept_log keeps)

  pub compact-Keeps :
      (at : Option FaultPoint) (w : World) → Kept w → Keeps (compact host im sha state at w)
  unfolding compact
  compact-Keeps at w kept = then-Keeps _ _ w (fault-Keeps at _ w kept) λ _ w1 kept1.
      then-Keeps _ _ w1 (persist_snapshot-Keeps none w1 kept1) λ _ w2 kept2.
        then-Keeps _ _ w2 (delete_old-Keeps w2 kept2) λ _ w3 kept3.
          then-Keeps _ _ w3 (fault-Keeps at _ w3 kept3) λ _ w4 kept4.
            then-Keeps _ _ w4 (checkpoint-Keeps none w4 kept4) λ _ w5 kept5.
              then-Keeps _ _ w5 (same-Keeps _ _ w5 (laws.vacuum-IsSame state.connection w5) kept5)
                λ _ w6 kept6. fault-Keeps at _ w6 kept6

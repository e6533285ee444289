-- ===== src/Store/Open/Reopen.antt =====
-- A project that the worker of crates/project-store/src/lib.rs has left is opened again.
use stitch_editor.Prelude.{
  ℕ, ◌≡◌, refl, sym, ◌∙◌, ap, subst, false, Option, some, List, [], ◌∷◌, ◌++◌, length, arith,
}
use stitch_editor.Prelude.Result.{ok, passed, passes}
use stitch_editor.Ids.{RevisionHash}
use stitch_editor.Wire.Bytes.{Bytes}
use stitch_editor.Crates.Im.{Im, Sha256}
use stitch_editor.Model.Command.{Command, from_canonical_bytes}
use stitch_editor.Model.Command.RoundTrip.{from_canonical_bytes-canonical_bytes}
use stitch_editor.Model.Project.{Project, reduce}
use stitch_editor.History.Replay.{replay}
use stitch_editor.Store.Database.{RevisionRow, ReceiptRow, Database}
use stitch_editor.Store.Host.{Host, Lawful}
use stitch_editor.Store.Log.{Log, log_empty, log_next}
use stitch_editor.Store.Maintenance.{State}
use stitch_editor.Store.Commit.{Running}
use stitch_editor.Store.Commit.Outcome.{Holds}
use stitch_editor.Store.Replay.Sound.{decode_onto}
use stitch_editor.Store.Restore.Sound.{IsReplay}
use stitch_editor.Store.Open.{open_state}
use stitch_editor.Store.Open.Calls.{Opens}
use stitch_editor.Store.Open.Sound.{Opened, open_state-Opened}
use stitch_editor.Store.Worker.{Work, serve, open_store}
use stitch_editor.Store.Worker.Runs.{AllServed}
use stitch_editor.Store.Worker.Durable.{Survives, serve-Survives}

decode_onto-last :
    (before commands : List Command) (rows : List RevisionRow) (row : RevisionRow)
    (command : Command)
    → decode_onto before rows ≡ ok commands
    → from_canonical_bytes row.command ≡ ok command
    → decode_onto before (rows ++ row ∷ []) ≡ ok (command ∷ commands)
unfolding decode_onto
decode_onto-last before commands [] row command h e =
    let same : before ≡ commands = cc h in rw e (ap (λ b. ok (command ∷ b)) same)
decode_onto-last before commands (first ∷ rest) row command h e =
    elim (passed (from_canonical_bytes first.command) _ h) [
      | passes c e1 r ↦ rw e1 (decode_onto-last (c ∷ before) commands rest row command r e)
    ]

module _ (im : Im) (sha : Sha256) where
  replay-next :
      (commands : List Command) (command : Command) (project next : Project im)
      (head : Option RevisionHash)
      → replay im sha commands ≡ ok (project, head)
      → reduce im project command ≡ ok next
      → replay im sha (command ∷ commands)
        ≡ ok (next, some (stitch_editor.History.revision_hash sha head command))
  unfolding replay
  replay-next commands command project next head h e = rw (h, e) refl

  Log-IsReplay :
      {rows : List RevisionRow} {receipts : List ReceiptRow} {project : Project im}
      {head : Option RevisionHash} {sequence : ℕ}
      → Log im sha rows receipts project head sequence
      → IsReplay im sha rows project head sequence
  unfolding decode_onto replay
  Log-IsReplay log_empty = ([], refl, refl, refl)
  Log-IsReplay
        (log_next {rows = rows} {project = project} {head = head} {sequence = sequence} request_id
          command next log valid sized new small reduced) =
      let (commands, decoded, replayed, counted) = Log-IsReplay log in
      (
        command ∷ commands,
        decode_onto-last [] commands rows _ command decoded
            (from_canonical_bytes-canonical_bytes command valid),
        replay-next commands command project next head replayed reduced,
        omega (arith, counted),
      )

  IsReplay-unique :
      (rows : List RevisionRow) (project other : Project im) (head start : Option RevisionHash)
      (sequence number : ℕ)
      → IsReplay im sha rows project head sequence
      → IsReplay im sha rows other start number
      → (project ≡ other) × (head ≡ start) × (sequence ≡ number)
  IsReplay-unique rows project other head start sequence number (commands, d, r, n)
        (commands', d', r', n') =
      let same : commands ≡ commands' = cc (d, d') in
      let ends : ok (project, head) ≡ ok (other, start) = sym r ∙ ap (replay im sha) same ∙ r' in
      (cc ends, cc ends, sym n ∙ ap length same ∙ n')

module _ (host : Host) (laws : Lawful host) (opens : Opens host) (im : Im) (sha : Sha256) where
  module _ (path : Bytes) (w : host.World) (after : Running im host) (state : State im host) where
    abbrev Same : Type 0
    Same =
        (state.project ≡ after.state.project)
        × (state.head ≡ after.state.head)
        × (state.sequence ≡ after.state.sequence)

    -- The revisions that the new connection sees are those of the worker.
    abbrev SeesAll : Type 0
    SeesAll =
        (host.database (open_state host im sha path w).0 state.connection).revisions
        ≡ (host.database after.world after.state.connection).revisions

    opened_again :
        Survives host laws im sha (open_store after)
        → SeesAll
        → Opened host laws im sha path state (open_state host im sha path w).0
        → Same
    opened_again (db, holds) sees opened =
        IsReplay-unique im sha db.revisions _ _ _ _ _ _
          (subst (λ rows. IsReplay im sha rows state.project state.head state.sequence)
            (sym (ap (λ d. d.revisions) opened.opened_outside.out_database)
              ∙ sees
              ∙ ap (λ d. d.revisions) holds.outside.out_database)
            opened.opened_replay)
          (Log-IsReplay im sha holds.stored.log)

  -- Where a store holds a log and any run of commits, receipt queries, snapshots, checkpoints,
  -- compactions and shutdowns has left it open, whichever calls on the database failed and
  -- whichever faults were injected, opening a path succeeds, with the revisions that the worker
  -- left, only with the project, the head and the sequence that the worker had in memory.
  pub serve-open_state :
      (works : List Work) (running after : Running im host) (db : Database) (path : Bytes)
      (w : host.World) (state : State im host)
      → Holds host laws im sha false db running
      → AllServed works
      → (serve host im sha works (open_store running)).0 ≡ open_store after
      → (open_state host im sha path w).1 ≡ ok state
      → SeesAll path w after state
      → (state.project ≡ after.state.project)
        × (state.head ≡ after.state.head)
        × (state.sequence ≡ after.state.sequence)
  serve-open_state works running after db path w state holds served e opened sees =
      opened_again path w after state
        (subst (Survives host laws im sha) e
          (serve-Survives host laws im sha works (open_store running) served (db, holds)))
        sees (open_state-Opened host laws opens im sha path w state opened)

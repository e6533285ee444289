-- ===== src/Store/Replay/Sound.antt =====
-- What the loop of `restore` of crates/project-store/src/lib.rs has replayed where it ends well.
use stitch_editor.Prelude.{
  ℕ, ◌+◌, ◌≡◌, refl, sym, ◌∙◌, ap, subst, Bool, true, false, not, ◌||◌, Option, none, some, List,
  [], ◌∷◌, arith, length, ◌==◌, if◌then◌else◌,
}
use stitch_editor.Prelude.Result.{Result, ok, err, map_err, ◌>>=◌, fail_if, passed, passes}
use stitch_editor.Ids.{ModelError}
use stitch_editor.Wire.Bytes.{beq}
use stitch_editor.Crates.Im.{Im, Sha256}
use stitch_editor.Model.Command.{Command, from_canonical_bytes}
use stitch_editor.Model.Project.{reduce}
use stitch_editor.Model.Project.Encode.{project_bytes, semantic_digest}
use stitch_editor.History.{revision_hash}
use stitch_editor.History.Replay.{replay}
use stitch_editor.Store.{corrupt_store}
use stitch_editor.Store.Database.{RevisionRow, SnapshotRow}
use stitch_editor.Store.Commit.{hash_from_bytes}
use stitch_editor.Store.Replay.{
  Progress, started, optional_hash, same_hash, compare_snapshot, match_snapshot, restore_row,
  restore_rows,
}

-- The commands of the rows, newest first, onto those read before.
unfoldable pub decode_onto : List Command → List RevisionRow → Result ModelError (List Command)
decode_onto commands [] = ok commands
decode_onto commands (row ∷ rest) = do
  command ← from_canonical_bytes row.command
  decode_onto (command ∷ commands) rest

map_err-ok : {E F A : Type 0} (r : Result E A) (f : F) {a : A} → map_err r f ≡ ok a → r ≡ ok a
map_err-ok (ok b) f h = cc h
map_err-ok (err e) f h = cc h

fail_if-ok :
    {E : Type 0} (test : Bool) (e : E) {u : Unit {0}} → fail_if test e ≡ ok u → test ≡ false
fail_if-ok true e h = cc h
fail_if-ok false e h = refl

same_number : (a b : ℕ) → not (a == b) ≡ false → a ≡ b
same_number a b h = ground arith

module _ (im : Im) (sha : Sha256) where
  record Same (before after : Progress im) : Type 0 where
    same_project : after.project ≡ before.project
    same_head : after.head ≡ before.head
    same_sequence : after.sequence ≡ before.sequence

  -- The commands so far give what the loop has so far.
  record Replayed (commands : List Command) (progress : Progress im) : Type 0 where
    replays : replay im sha commands ≡ ok (progress.project, progress.head)
    counted : length commands ≡ progress.sequence

  -- The rows decode to commands whose replay gives what the loop ends with.
  pub record Ends (before : List Command) (rows : List RevisionRow) (after : Progress im)
      : Type 0 where
    pub commands : List Command
    pub decoded : decode_onto before rows ≡ ok commands
    pub ends_replay : replay im sha commands ≡ ok (after.project, after.head)
    pub ends_count : length commands ≡ after.sequence

  to_same : (before after : Progress im) → before ≡ after → Same before after
  to_same before after e = record {
    same_project = sym (ap (λ p. p.project) e);
    same_head = sym (ap (λ p. p.head) e);
    same_sequence = sym (ap (λ p. p.sequence) e);
  }

  -- A row that the loop takes is one more command on what it had.
  record Taken (progress : Progress im) (row : RevisionRow) (next : Progress im) : Type 0 where
    command : Command
    decodes : from_canonical_bytes row.command ≡ ok command
    reduced : reduce im progress.project command ≡ ok next.project
    hashed : next.head ≡ some (revision_hash sha progress.head command)
    numbered : next.sequence ≡ progress.sequence + 1

  Replayed-next :
      (commands : List Command) (progress next : Progress im) (row : RevisionRow)
      → Replayed commands progress
      → (t : Taken progress row next) → Replayed (t.command ∷ commands) next
  unfolding replay
  Replayed-next commands progress next row r t = record {
    replays = rw (r.replays, ◌>>=◌, t.reduced, t.hashed) refl;
    counted = omega (arith, r.counted, t.numbered);
  }

module _ (im : Im) (sha : Sha256) {E : Type 0} where
  compare_snapshot-Same :
      (snapshot : SnapshotRow) (progress next : Progress im)
      → compare_snapshot im sha {E = E} snapshot progress ≡ ok next
      → Same im sha progress next
  unfolding compare_snapshot
  compare_snapshot-Same snapshot progress next h =
      elim (passed (hash_from_bytes snapshot.revision_hash) _ h) [
        | passes hash e r ↦
            elim (passed
              (fail_if
                (not (same_hash progress.head (some hash))
                  || not (beq (project_bytes im progress.project) snapshot.project)
                  || not (beq (semantic_digest im sha progress.project) snapshot.project_digest))
                corrupt_store)
              _ r) [
                | passes u e1 r1 ↦
                    let same : record progress { matched_snapshot = true } ≡ next = cc r1 in
                    let back = to_same im sha _ next same in
                    record {
                      same_project = back.same_project;
                      same_head = back.same_head;
                      same_sequence = back.same_sequence;
                    }
              ]
      ]

  matched_if :
      (test : Bool) (snapshot : SnapshotRow) (progress next : Progress im)
      → (if test then compare_snapshot im sha {E = E} snapshot progress else ok progress) ≡ ok next
      → Same im sha progress next
  matched_if true snapshot progress next h = compare_snapshot-Same snapshot progress next h
  matched_if false snapshot progress next h =
      let same : progress ≡ next = cc h in to_same im sha progress next same

  match_snapshot-Same :
      (snapshot : Option SnapshotRow) (progress next : Progress im)
      → match_snapshot im sha {E = E} snapshot progress ≡ ok next
      → Same im sha progress next
  unfolding match_snapshot
  match_snapshot-Same none progress next h =
      let same : progress ≡ next = cc h in to_same im sha progress next same
  match_snapshot-Same (some snapshot) progress next h =
      matched_if (progress.sequence == snapshot.sequence) snapshot progress next h

  restore_row-Taken :
      (snapshot : Option SnapshotRow) (progress next : Progress im) (row : RevisionRow)
      → restore_row im sha {E = E} snapshot progress row ≡ ok next
      → Taken im sha progress row next
  unfolding restore_row
  restore_row-Taken snapshot progress next row h =
      elim (passed (fail_if (not (row.sequence == progress.sequence + 1)) corrupt_store) _ h) [
        | passes u e1 r1 ↦
            elim (passed (map_err (from_canonical_bytes row.command) corrupt_store) _ r1) [
              | passes command e2 r2 ↦ elim (passed (optional_hash row.parent_hash) _ r2) [
                | passes parent e3 r3 ↦
                    elim (passed (fail_if (not (same_hash parent progress.head)) corrupt_store) _
                      r3) [
                        | passes v e4 r4 ↦ elim (passed (hash_from_bytes row.revision_hash) _ r4) [
                          | passes hash e5 r5 ↦
                              elim (passed
                                (fail_if (not (beq (revision_hash sha progress.head command) hash))
                                  corrupt_store)
                                _ r5) [
                                  | passes w e6 r6 ↦
                                      elim (passed
                                        (map_err (reduce im progress.project command) corrupt_store)
                                        _ r6) [
                                          | passes project e7 r7 ↦
                                              let same = match_snapshot-Same snapshot _ next r7 in
                                              record {
                                                command = command;
                                                decodes = map_err-ok _ _ e2;
                                                reduced =
                                                    map_err-ok _ _ e7
                                                    ∙ ap ok (sym same.same_project);
                                                hashed = same.same_head;
                                                numbered =
                                                    same.same_sequence
                                                    ∙ same_number row.sequence _
                                                        (fail_if-ok _ _ e1);
                                              }
                                        ]
                                ]
                        ]
                      ]
              ]
            ]
      ]

  restore_rows-Ends :
      (snapshot : Option SnapshotRow) (rows : List RevisionRow) (progress after : Progress im)
      (commands : List Command)
      → Replayed im sha commands progress
      → restore_rows im sha {E = E} snapshot progress rows ≡ ok after
      → Ends im sha commands rows after
  unfolding restore_rows decode_onto
  restore_rows-Ends snapshot [] progress after commands r h =
      let same : progress ≡ after = cc h in
      record {
        commands = commands;
        decoded = refl;
        ends_replay = subst (λ p. replay im sha commands ≡ ok (p.project, p.head)) same r.replays;
        ends_count = subst (λ p. length commands ≡ p.sequence) same r.counted;
      }
  restore_rows-Ends snapshot (row ∷ rest) progress after commands r h =
      elim (passed (restore_row im sha {E = E} snapshot progress row) _ h) [
        | passes next e h' ↦
            let t = restore_row-Taken snapshot progress next row e in
            let ends =
              restore_rows-Ends snapshot rest next after (t.command ∷ commands)
                (Replayed-next im sha commands progress next row r t) h' in
            record {
              commands = ends.commands;
              decoded = rw (t.decodes, ◌>>=◌) ends.decoded;
              ends_replay = ends.ends_replay;
              ends_count = ends.ends_count;
            }
      ]

  pub started-Ends :
      (snapshot : Option SnapshotRow) (rows : List RevisionRow) (after : Progress im)
      → restore_rows im sha {E = E} snapshot (started im snapshot) rows ≡ ok after
      → Ends im sha [] rows after
  unfolding replay
  started-Ends snapshot rows after h =
      restore_rows-Ends snapshot rows (started im snapshot) after []
        (record { replays = refl; counted = refl }) h

-- ===== src/Abi/Batch.antt =====
-- The loop of `stitch_core_submit` over its commands, native/c-abi/rust/src/lib.rs.
pub mod Replay
use stitch_editor.Prelude.{List, [], ◌∷◌}
use stitch_editor.Prelude.Result.{Result, ok, err, ◌>>=◌}
use stitch_editor.Ids.{RevisionHash, ModelError}
use stitch_editor.Crates.Im.{Im, Sha256}
use stitch_editor.History.{EditorHistory, apply}
use stitch_editor.Abi.Types.{StitchResult, StitchCommand, model_error}
use stitch_editor.Abi.Convert.{command}

module _ (im : Im) (sha : Sha256) where
  abbrev pub kept :
      EditorHistory im × Result ModelError RevisionHash → Result StitchResult (EditorHistory im)
  kept (after, ok hash) = ok after
  kept (after, err e) = err model_error

  -- `next.apply(&command(*raw)?).map_err(|_| ModelError)?`
  unfoldable pub apply_one :
      StitchCommand → EditorHistory im → Result StitchResult (EditorHistory im)
  apply_one raw next = command raw >>= (λ c. kept (apply im sha next c))

  -- The loop, on the clone of the history.
  unfoldable pub apply_all :
      List StitchCommand → EditorHistory im → Result StitchResult (EditorHistory im)
  apply_all [] next = ok next
  apply_all (raw ∷ commands) next = apply_one raw next >>= (λ after. apply_all commands after)

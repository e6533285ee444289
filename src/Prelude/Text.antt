-- ===== src/Prelude/Text.antt =====
-- Texts as byte strings.
use Prim.Native.String.{String}
use Prim.Native.Char.{code}
use stitch_editor.Prelude.{ℕ, List, [], ◌∷◌}

-- The bytes of an ASCII text.
abbrev pub codes : String → List ℕ
codes String.[] = []
codes (String.◌∷◌ c s) = code c ∷ codes s

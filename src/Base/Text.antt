-- ===== src/Base/Text.antt =====
-- Python's `split` by one character and its order of texts, on native texts.
pub mod Order
use Prim.Native.Char.{Char, code}
use Prim.Native.String.{String}
use enoslib.Base.Tests.{if◌then◌else◌, ◌==◌, ltb}
use Prim.Native.Nat.{ℕ}
use text.Mathlib.Text.{starts_with}
use mathlib.Core.Bool.{Bool, true, false}
use mathlib.Core.List.{List, [], ◌∷◌}

unfoldable pub cons_first : Char → List String → List String
cons_first c [] = String.◌∷◌ c "" ∷ []
cons_first c (s ∷ ss) = String.◌∷◌ c s ∷ ss

-- `s.split(sep)`
unfoldable pub split : ℕ → String → List String
unfolding cons_first
split sep String.[] = "" ∷ []
split sep (String.◌∷◌ c s) = if code c == sep then "" ∷ split sep s else cons_first c (split sep s)

-- `s <= t`
unfoldable pub text_le : String → String → Bool
text_le String.[] t = true
text_le (String.◌∷◌ c s) String.[] = false
text_le (String.◌∷◌ c s) (String.◌∷◌ d t) =
    if ltb (code c) (code d) then true else if code c == code d then text_le s t else false

-- `s in t`
unfoldable pub occurs : String → String → Bool
occurs s String.[] = starts_with "" s
occurs s (String.◌∷◌ c t) =
    let rest = occurs s t in if starts_with (String.◌∷◌ c t) s then true else rest

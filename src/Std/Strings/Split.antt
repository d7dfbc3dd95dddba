-- ===== src/Std/Strings/Split.antt =====
-- strings.Split and strings.Join with a separator of one character.
pub mod Join
use Prim.Native.Char.{Char, code}
use Prim.Native.String as S
use zookeeper_operator.Prelude.{ℕ, ◌==◌, String, List, [], ◌∷◌, if◌then◌else◌}

-- one more character at the head of the first part
abbrev pub onto_head : Char → List String → List String
onto_head c [] = S.◌∷◌ c "" ∷ []
onto_head c (p ∷ ps) = S.◌∷◌ c p ∷ ps

-- strings.Split, by the code point of the separator
unfoldable pub split : ℕ → String → List String
split sep String.[] = "" ∷ []
split sep (String.◌∷◌ c s) =
    let rest = split sep s in if code c == sep then "" ∷ rest else onto_head c rest

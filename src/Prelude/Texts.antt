-- ===== src/Prelude/Texts.antt =====
-- Texts: their characters as code points, and joining.
use Prim.Native.Nat.{ℕ}
use Prim.Native.Char.{code}
use Prim.Native.String as S
use Prim.Native.String.{String}
use mathlib.Core.Path.{◌≡◌}
use mathlib.Core.List.{List, [], ◌∷◌, ◌++◌}
use text.Mathlib.TextLemmas.{nil-append, cons-append}

-- The code points of a text: its bytes, where it is ASCII.
abbrev pub codes : String → List ℕ
codes String.[] = []
codes (String.◌∷◌ c s) = code c ∷ codes s

-- Go's `+` on strings
infixr 65 ◌&◌
abbrev pub ◌&◌ : String → String → String
s & t = S.◌++◌ s t

pub codes-append : (s t : String) → codes (s & t) ≡ codes s ++ codes t
codes-append String.[] t = rw nil-append
codes-append (String.◌∷◌ c s) t = rw (cons-append, codes-append s t)

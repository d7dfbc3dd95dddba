-- ===== src/Std/Filepath.antt =====
-- filepath.Join of two elements, and filepath.Clean, on Unix.
use Prim.Native.Char.{code}
use Prim.Native.String as S
use zookeeper_operator.Prelude.{
  ◌==◌, String, ◌&◌, str_eq, Bool, true, false, ◌||◌, List, [], ◌∷◌, if◌then◌else◌,
}
use zookeeper_operator.Std.Strings.Split.{split}

is_rooted : String → Bool
is_rooted S.[] = false
is_rooted (S.◌∷◌ c s) = code c == b'/'

-- `..`, where the elements kept so far stand with the last one first
climb : Bool → List String → List String
climb true [] = []
climb false [] = ".." ∷ []
climb rooted (p ∷ ps) = if str_eq p ".." then ".." ∷ p ∷ ps else ps

enter : Bool → String → List String → List String
unfolding climb
enter rooted p kept =
    if str_eq p "" || str_eq p "."
    then kept
    else if str_eq p ".."
    then climb rooted kept
    else p ∷ kept

walk : Bool → List String → List String → List String
unfolding enter
walk rooted kept [] = kept
walk rooted kept (p ∷ ps) = walk rooted (enter rooted p kept) ps

spell : List String → String
spell [] = ""
spell (p ∷ []) = p
spell (p ∷ (q ∷ ps)) = spell (q ∷ ps) & "/" & p

-- filepath.Clean
unfoldable pub clean : String → String
unfolding is_rooted walk spell split
clean path =
    let kept = walk (is_rooted path) [] (split b'/' path) in
    if is_rooted path then "/" & spell kept else elim kept [ [] ↦ "." | p ∷ ps ↦ spell (p ∷ ps) ]

-- filepath.Join: empty elements are left out
unfoldable pub join : String → String → String
unfolding clean
join a b = if str_eq a "" then if str_eq b "" then "" else clean b else clean (a & "/" & b)

-- ===== src/Prelude/Dict.antt =====
-- Go's `map[string]string`. A nil map is `none` of an `Option Dict` where the program can tell.
-- The iteration order of a Go map is not specified: the model iterates from the last entry of the
-- list to the first.
use Prim.Native.String.{String}
use mathlib.Core.Path.{◌≡◌, refl}
use mathlib.Core.Bool.{Bool, true, false, ◌||◌}
use mathlib.Core.Option.{Option, none, some}
use mathlib.Core.List.{List, [], ◌∷◌}
use native.Mathlib.Omega.{arith}
use text.Mathlib.Text.{◌==◌ as str_eq}
use text.Mathlib.TextEquality.{eq_iff}
use text.Mathlib.TextPositions.{eq_refl}
use zookeeper_operator.Prelude.Tests.{if◌then◌else◌}

abbrev pub Dict : Type 0
Dict = List (String × String)

-- m[k]
unfoldable pub get : String → Dict → Option String
get k [] = none
get k ((j, v) ∷ m) = if str_eq j k then some v else get k m

-- m[k] = v
unfoldable pub put : String → String → Dict → Dict
put k v [] = (k, v) ∷ []
put k v ((j, w) ∷ m) = if str_eq j k then (k, v) ∷ m else (j, w) ∷ put k v m

-- `_, ok := m[k]`
abbrev pub is_some {ℓ} : {A : Type ℓ} → Option A → Bool
is_some none = false
is_some (some a) = true

unfoldable pub has : String → Dict → Bool
has k m = is_some (get k m)

-- a nil map reads as an empty one
abbrev pub entries : Option Dict → Dict
entries none = []
entries (some m) = m

pub get-put :
    (k j v : String) (m : Dict) → get j (put k v m) ≡ (if str_eq k j then some v else get j m)
unfolding get put
get-put k j v [] = refl
get-put k j v ((i, w) ∷ m) = ground (arith, eq_iff k j, eq_iff i k, eq_iff i j, get-put k j v m)

pub get-put_self : (k v : String) (m : Dict) → get k (put k v m) ≡ some v
get-put_self k v m = rw (get-put, eq_refl k)

pub has-put : (k j v : String) (m : Dict) → has j (put k v m) ≡ (str_eq k j || has j m)
unfolding has
has-put k j v m = rw get-put (ground arith)

-- `for k, v := range m { res[k] = v }`
unfoldable pub put_all : Dict → Dict → Dict
put_all [] res = res
put_all ((k, v) ∷ m) res = put k v (put_all m res)

abbrev pub or_else {ℓ} : {A : Type ℓ} → Option A → Option A → Option A
or_else none b = b
or_else (some a) b = some a

pub get-put_all :
    (k : String) (m res : Dict) → get k (put_all m res) ≡ or_else (get k m) (get k res)
unfolding get put_all
get-put_all k [] res = refl
get-put_all k ((j, v) ∷ m) res = rw get-put (ground (arith, get-put_all k m res))

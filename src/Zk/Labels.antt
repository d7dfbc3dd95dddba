-- ===== src/Zk/Labels.antt =====
-- pkg/zk/generators.go: mergeLabels and copyMap.
use zookeeper_operator.Prelude.{String, Option, none, some, List, [], ◌∷◌, ◌≡◌, refl}
use zookeeper_operator.Prelude.Dict.{Dict, get, put_all, or_else, get-put_all}

-- the two loops, from the given map on
merge_into : Dict → List Dict → Dict
merge_into res [] = res
merge_into res (v ∷ l) = merge_into (put_all v res) l

unfoldable pub merge_labels : List Dict → Dict
unfolding merge_into
merge_labels l = merge_into [] l

unfoldable pub copy_map : Dict → Dict
copy_map s = put_all s []

-- the value of a key in the last map that has the key
abbrev pub last_value : String → Option String → List Dict → Option String
last_value k found [] = found
last_value k found (v ∷ l) = last_value k (or_else (get k v) found) l

get-merge_into :
    (k : String) (l : List Dict) (res : Dict)
    → get k (merge_into res l) ≡ last_value k (get k res) l
unfolding merge_into
get-merge_into k [] res = refl
get-merge_into k (v ∷ l) res = rw (get-merge_into k l (put_all v res), get-put_all k v res)

-- In the merged map each key has the value of the last of the maps that have it, and a key that none
-- of them has is missing.
pub get-merge_labels : (k : String) (l : List Dict) → get k (merge_labels l) ≡ last_value k none l
unfolding merge_labels get
get-merge_labels k l = get-merge_into k l []

-- copyMap keeps every key with its value.
pub get-copy_map : (k : String) (s : Dict) → get k (copy_map s) ≡ get k s
unfolding copy_map get
get-copy_map k s = rw (get-put_all k s []) (or_none (get k s))
  where
    or_none : (o : Option String) → or_else o none ≡ o
    or_none none = refl
    or_none (some v) = refl

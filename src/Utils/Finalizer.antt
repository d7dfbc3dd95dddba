-- ===== src/Utils/Finalizer.antt =====
-- pkg/utils/finalizer_utils.go: the finalizer lists and the names of orphan volume claims.
pub mod Lists
pub mod Orphans
use zookeeper_operator.Prelude.{
  ℕ, ℤ, pos, negsuc, leb_ℤ, int32, String, codes, str_eq, Bool, true, false, Option, none, some,
  List, [], ◌∷◌, ◌==◌, if◌then◌else◌, ◌≡◌, refl,
}
use zookeeper_operator.Std.Strconv.{NumError, atoi_codes}

abbrev pub zk_finalizer : String
zk_finalizer = "cleanUpZookeeperPVC"

unfoldable pub contains_string : List String → String → Bool
contains_string [] str = false
contains_string (item ∷ slice) str =
    let rest = contains_string slice str in if str_eq item str then true else rest

unfoldable pub remove_string : List String → String → List String
remove_string [] str = []
remove_string (item ∷ slice) str =
    let rest = remove_string slice str in if str_eq item str then rest else item ∷ rest

-- what stands behind the last dash, `s[strings.LastIndexAny(s, "-")+1:]`
after_last_dash : List ℕ → Option (List ℕ)
after_last_dash [] = none
after_last_dash (c ∷ s) = elim (after_last_dash s) [
  | some t ↦ some t
  | none ↦ if c == b'-' then some s else none
]

has_reached : ℤ × Option NumError → ℤ → Bool
has_reached (ordinal, some err) replicas = false
has_reached (ordinal, none) replicas = leb_ℤ replicas (int32 ordinal)

is_orphan_codes : Option (List ℕ) → ℤ → Bool
unfolding has_reached
is_orphan_codes none replicas = false
is_orphan_codes (some suffix) replicas = has_reached (atoi_codes suffix) replicas

-- the `int` of the ordinal is compared after the conversion `int32(ordinal)`
unfoldable pub is_pvc_orphan : String → ℤ → Bool
unfolding after_last_dash is_orphan_codes
is_pvc_orphan zk_pvc_name replicas = is_orphan_codes (after_last_dash (codes zk_pvc_name)) replicas

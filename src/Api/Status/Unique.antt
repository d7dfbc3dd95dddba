-- ===== src/Api/Status/Unique.antt =====
-- The types of the conditions of a status (api/v1beta1/status.go).
use zookeeper_operator.Prelude.{
  ℕ, suc, ◌+◌, ◌≤◌, String, str_eq, eq_iff, none, List, [], ◌∷◌, ◌++◌, if◌then◌else◌, ◌≡◌, refl,
  arith,
}
use zookeeper_operator.Api.Status.{
  ClusterCondition, ZookeeperClusterStatus, second, find_condition, get_cluster_condition,
  set_cluster_condition,
}
use zookeeper_operator.Api.Status.Conditions.{types, types-set_cluster_condition}

abbrev pub count : String → List String → ℕ
count t [] = 0
count t (x ∷ xs) = if str_eq t x then suc (count t xs) else count t xs

abbrev pub HasUniqueTypes : ZookeeperClusterStatus → Type 0
HasUniqueTypes zs = (t : String) → count t (types zs.conditions) ≤ 1

count-append :
    (t u : String) (xs : List String)
    → count t (xs ++ u ∷ []) ≡ count t xs + (if str_eq t u then 1 else 0)
count-append t u [] = ground arith
count-append t u (x ∷ xs) = ground (arith, count-append t u xs)

count_of_missing :
    (t : String) (cs : List ClusterCondition)
    → second (find_condition cs t) ≡ none
    → count t (types cs) ≡ 0
unfolding find_condition
count_of_missing t [] h = refl
count_of_missing t (c ∷ cs) h = ground (arith, count_of_missing t cs)

-- Where no type stands twice, none does after setClusterCondition, whatever the new condition.
pub set_cluster_condition-HasUniqueTypes :
    (now : String) (new : ClusterCondition) (zs : ZookeeperClusterStatus)
    → HasUniqueTypes zs
    → HasUniqueTypes (set_cluster_condition now new zs)
unfolding get_cluster_condition
set_cluster_condition-HasUniqueTypes now new zs h t = rw (types-set_cluster_condition now new zs) (
    ground (
      arith,
      h t,
      eq_iff t new.type,
      count-append t new.type (types zs.conditions),
      count_of_missing new.type zs.conditions,
    ))

-- ===== src/Api/Status/Init.antt =====
-- What Init adds.
use zookeeper_operator.Prelude.{
  String, str_eq, eq_iff, ◌||◌, Option, none, some, if◌then◌else◌, ◌≡◌, refl, arith, ℕ, ◌∙◌,
}
use zookeeper_operator.Prelude.Dict.{or_else}
use zookeeper_operator.Api.Status.{
  ClusterCondition, ZookeeperClusterStatus, condition, get_cluster_condition, add_missing,
  init_condition, init, new_cluster_condition, set_cluster_condition, pods_ready, upgrading, error,
  condition_false,
}
use zookeeper_operator.Api.Status.Conditions.{condition-set_cluster_condition}

abbrev initial : String → ClusterCondition
initial t = new_cluster_condition t condition_false "" ""

add_missing_lem :
    (now u : String) (zs : ZookeeperClusterStatus) (o : Option (ℕ × ClusterCondition)) (t : String)
    → get_cluster_condition zs u ≡ o
    → condition (add_missing now u zs o) t
      ≡ or_else (condition zs t) (if str_eq t u then some (initial u) else none)
unfolding add_missing new_cluster_condition
add_missing_lem now u zs none t h =
    rw condition-set_cluster_condition (ground (arith, h, eq_iff t u))
add_missing_lem now u zs (some (i, c)) t h = ground (arith, h, eq_iff t u)

init_condition_lem :
    (now u : String) (zs : ZookeeperClusterStatus) (t : String)
    → condition (init_condition now u zs) t
      ≡ or_else (condition zs t) (if str_eq t u then some (initial u) else none)
unfolding init_condition
init_condition_lem now u zs t = add_missing_lem now u zs (get_cluster_condition zs u) t refl

-- After Init each of the three condition types has a condition: the one that it had, or a new one
-- that is False; the conditions of other types are as before.
pub condition-init :
    (now : String) (zs : ZookeeperClusterStatus) (t : String)
    → condition (init now zs) t
      ≡ or_else (condition zs t) (
          if str_eq t pods_ready || str_eq t upgrading || str_eq t error
          then some (new_cluster_condition t condition_false "" "")
          else none)
unfolding init
condition-init now zs t =
    rw (init_condition_lem, init_condition_lem, init_condition_lem)
      (ground (arith, eq_iff t pods_ready, eq_iff t upgrading, eq_iff t error))

add_missing_counts :
    (now u : String) (zs : ZookeeperClusterStatus) (o : Option (ℕ × ClusterCondition))
    → ((add_missing now u zs o).ready_replicas ≡ zs.ready_replicas)
      × ((add_missing now u zs o).meta_root_created ≡ zs.meta_root_created)
unfolding add_missing set_cluster_condition
add_missing_counts now u zs none = (refl, refl)
add_missing_counts now u zs (some c) = (refl, refl)

init_condition_counts :
    (now u : String) (zs : ZookeeperClusterStatus)
    → ((init_condition now u zs).ready_replicas ≡ zs.ready_replicas)
      × ((init_condition now u zs).meta_root_created ≡ zs.meta_root_created)
unfolding init_condition
init_condition_counts now u zs = add_missing_counts now u zs (get_cluster_condition zs u)

-- Init leaves the count of the ready replicas and the mark of the metadata node.
pub init_counts :
    (now : String) (zs : ZookeeperClusterStatus)
    → ((init now zs).ready_replicas ≡ zs.ready_replicas)
      × ((init now zs).meta_root_created ≡ zs.meta_root_created)
unfolding init
init_counts now zs =
    let a = init_condition now pods_ready zs in
    let b = init_condition now upgrading a in
    (
      (init_condition_counts now error b).0
          ∙ (init_condition_counts now upgrading a).0
          ∙ (init_condition_counts now pods_ready zs).0,
      (init_condition_counts now error b).1
          ∙ (init_condition_counts now upgrading a).1
          ∙ (init_condition_counts now pods_ready zs).1,
    )

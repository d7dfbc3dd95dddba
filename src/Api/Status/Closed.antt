-- ===== src/Api/Status/Closed.antt =====
-- Predicates that every change of a condition keeps.
use zookeeper_operator.Prelude.{ℕ, String, Option, none, some, ◌≡◌, refl}
use zookeeper_operator.Api.Status.{
  ClusterCondition, ZookeeperClusterStatus, error, upgrading, pods_ready, get_cluster_condition,
  set_cluster_condition, add_missing, init_condition, init,
}

module _ (J : ZookeeperClusterStatus → Type 0)
    (sets : (now : String) (c : ClusterCondition) (zs : ZookeeperClusterStatus)
      → J zs
      → J (set_cluster_condition now c zs)) where
  add_missing_closed :
      (now t : String) (zs : ZookeeperClusterStatus) (o : Option (ℕ × ClusterCondition))
      → J zs
      → J (add_missing now t zs o)
  unfolding add_missing
  add_missing_closed now t zs none h = sets now _ zs h
  add_missing_closed now t zs (some found) h = h

  init_condition_closed :
      (now t : String) (zs : ZookeeperClusterStatus) → J zs → J (init_condition now t zs)
  unfolding init_condition
  init_condition_closed now t zs h = add_missing_closed now t zs (get_cluster_condition zs t) h

  pub init_closed : (now : String) (zs : ZookeeperClusterStatus) → J zs → J (init now zs)
  unfolding init
  init_closed now zs h =
      init_condition_closed now error _
        (init_condition_closed now upgrading _ (init_condition_closed now pods_ready zs h))

-- A condition is no version.
pub current-set_cluster_condition :
    (now : String) (c : ClusterCondition) (zs : ZookeeperClusterStatus)
    → (set_cluster_condition now c zs).current_version ≡ zs.current_version
unfolding set_cluster_condition
current-set_cluster_condition now c zs = refl

pub target-set_cluster_condition :
    (now : String) (c : ClusterCondition) (zs : ZookeeperClusterStatus)
    → (set_cluster_condition now c zs).target_version ≡ zs.target_version
unfolding set_cluster_condition
target-set_cluster_condition now c zs = refl

-- ===== src/Api/Status/States.antt =====
-- The state predicates of a status after setClusterCondition.
use zookeeper_operator.Prelude.{
  String, str_eq, ◌&&◌, Option, none, some, if◌then◌else◌, ◌≡◌, refl, arith,
}
use zookeeper_operator.Api.Status.{
  ClusterCondition, ZookeeperClusterStatus, condition, set_cluster_condition, pods_ready, upgrading,
  error, condition_true, is_true, has_failed, is_cluster_in_upgrade_failed_state,
  is_cluster_in_upgrading_state, is_cluster_in_ready_state,
}
use zookeeper_operator.Api.Status.Conditions.{stored, condition-set_cluster_condition}

is_true-stored :
    (now : String) (new : ClusterCondition) (o : Option ClusterCondition)
    → is_true (some (stored now new o)) ≡ str_eq new.status condition_true
unfolding is_true
is_true-stored now new none = refl
is_true-stored now new (some old) = refl

has_failed-stored :
    (now : String) (new : ClusterCondition) (o : Option ClusterCondition)
    → has_failed (some (stored now new o))
      ≡ (str_eq new.status condition_true && str_eq new.reason "UpgradeFailed")
unfolding has_failed
has_failed-stored now new none = refl
has_failed-stored now new (some old) = refl

module _ (now : String) (new : ClusterCondition) (zs : ZookeeperClusterStatus) where
  pub is_upgrading-set : is_cluster_in_upgrading_state (set_cluster_condition now new zs) ≡ (
      if str_eq upgrading new.type
      then str_eq new.status condition_true
      else is_cluster_in_upgrading_state zs)
  unfolding is_cluster_in_upgrading_state
  is_upgrading-set =
      rw condition-set_cluster_condition
        (ground (arith, is_true-stored now new (condition zs new.type)))

  pub is_ready-set : is_cluster_in_ready_state (set_cluster_condition now new zs) ≡ (
      if str_eq pods_ready new.type
      then str_eq new.status condition_true
      else is_cluster_in_ready_state zs)
  unfolding is_cluster_in_ready_state
  is_ready-set =
      rw condition-set_cluster_condition
        (ground (arith, is_true-stored now new (condition zs new.type)))

  pub has_failed-set : is_cluster_in_upgrade_failed_state (set_cluster_condition now new zs) ≡ (
      if str_eq error new.type
      then str_eq new.status condition_true && str_eq new.reason "UpgradeFailed"
      else is_cluster_in_upgrade_failed_state zs)
  unfolding is_cluster_in_upgrade_failed_state
  has_failed-set =
      rw condition-set_cluster_condition
        (ground (arith, has_failed-stored now new (condition zs new.type)))

-- The three states after any call of setClusterCondition: the state that the new condition's type
-- decides is read off the new condition, and the other two are as before.
pub states-set_cluster_condition :
    (now : String) (new : ClusterCondition) (zs : ZookeeperClusterStatus)
    → let after = set_cluster_condition now new zs in
      (is_cluster_in_upgrading_state after ≡ (
        if str_eq upgrading new.type
        then str_eq new.status condition_true
        else is_cluster_in_upgrading_state zs))
      × (is_cluster_in_ready_state after ≡ (
          if str_eq pods_ready new.type
          then str_eq new.status condition_true
          else is_cluster_in_ready_state zs))
      × (is_cluster_in_upgrade_failed_state after ≡ (
          if str_eq error new.type
          then str_eq new.status condition_true && str_eq new.reason "UpgradeFailed"
          else is_cluster_in_upgrade_failed_state zs))
states-set_cluster_condition now new zs =
    (is_upgrading-set now new zs, is_ready-set now new zs, has_failed-set now new zs)

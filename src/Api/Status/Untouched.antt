-- ===== src/Api/Status/Untouched.antt =====
-- What the changes of conditions leave alone.
use zookeeper_operator.Prelude.{String, Option, none, some, [], ◌≡◌, refl, ap, ◌∙◌}
use zookeeper_operator.Prelude.Dict.{or_else}
use zookeeper_operator.Api.Status.{
  ClusterCondition, ZookeeperClusterStatus, condition, is_true, has_failed, pods_ready, upgrading,
  error, condition_false, new_cluster_condition, set_cluster_condition, init,
  set_pods_ready_condition_true, set_pods_ready_condition_false, is_cluster_in_upgrading_state,
  is_cluster_in_ready_state, is_cluster_in_upgrade_failed_state,
}
use zookeeper_operator.Api.Status.Closed.{init_closed}
use zookeeper_operator.Api.Status.Init.{condition-init}
use zookeeper_operator.Api.Status.View.{view}

-- all of the status but its conditions
abbrev pub bare_of : ZookeeperClusterStatus → ZookeeperClusterStatus
bare_of zs = record zs { conditions = [] }

pub bare_of-set_cluster_condition :
    (now : String) (c : ClusterCondition) (zs : ZookeeperClusterStatus)
    → bare_of (set_cluster_condition now c zs) ≡ bare_of zs
unfolding set_cluster_condition
bare_of-set_cluster_condition now c zs = refl

pub bare_of-init : (now : String) (zs : ZookeeperClusterStatus) → bare_of (init now zs) ≡ bare_of zs
bare_of-init now zs =
    init_closed (λ x. bare_of x ≡ bare_of zs) (λ t c x h. bare_of-set_cluster_condition t c x ∙ h)
      now zs refl

pub bare_of-set_pods_ready_true :
    (now : String) (zs : ZookeeperClusterStatus)
    → bare_of (set_pods_ready_condition_true now zs) ≡ bare_of zs
unfolding set_pods_ready_condition_true
bare_of-set_pods_ready_true now zs = bare_of-set_cluster_condition now _ zs

pub bare_of-set_pods_ready_false :
    (now : String) (zs : ZookeeperClusterStatus)
    → bare_of (set_pods_ready_condition_false now zs) ≡ bare_of zs
unfolding set_pods_ready_condition_false
bare_of-set_pods_ready_false now zs = bare_of-set_cluster_condition now _ zs

-- a condition that is False, where there was none, makes no state
is_true-or_else :
    (t : String) (o : Option ClusterCondition)
    → is_true (or_else o (some (new_cluster_condition t condition_false "" ""))) ≡ is_true o
unfolding is_true new_cluster_condition
is_true-or_else t none = refl
is_true-or_else t (some c) = refl

has_failed-or_else :
    (t : String) (o : Option ClusterCondition)
    → has_failed (or_else o (some (new_cluster_condition t condition_false "" ""))) ≡ has_failed o
unfolding has_failed new_cluster_condition
has_failed-or_else t none = refl
has_failed-or_else t (some c) = refl

pub view-init : (now : String) (zs : ZookeeperClusterStatus) → view (init now zs) ≡ view zs
unfolding is_cluster_in_upgrading_state is_cluster_in_ready_state is_cluster_in_upgrade_failed_state
view-init now zs =
    let same = bare_of-init now zs in
    let current = ap (λ (x : ZookeeperClusterStatus). x.current_version) same in
    let target = ap (λ (x : ZookeeperClusterStatus). x.target_version) same in
    rw (
      condition-init now zs upgrading,
      condition-init now zs pods_ready,
      condition-init now zs error,
      is_true-or_else upgrading (condition zs upgrading),
      is_true-or_else pods_ready (condition zs pods_ready),
      has_failed-or_else error (condition zs error),
      current,
      target,
    )

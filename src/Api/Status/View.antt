-- ===== src/Api/Status/View.antt =====
-- The part of a status that the upgrade reads and writes, and how the setters change it.
use zookeeper_operator.Prelude.{
  String, str_eq, Bool, true, false, none, some, if◌then◌else◌, ◌≡◌, refl, ◌∙◌, sym,
}
use zookeeper_operator.Api.Status.{
  ClusterCondition, ZookeeperClusterStatus, condition, get_cluster_condition, new_cluster_condition,
  upgrading, condition_true, set_upgrading_condition_true, set_upgrading_condition_false,
  set_pods_ready_condition_true, set_pods_ready_condition_false, set_error_condition_true,
  set_error_condition_false, update_progress, set_cluster_condition,
  is_cluster_in_upgrade_failed_state, is_cluster_in_upgrading_state, is_cluster_in_ready_state,
}
use zookeeper_operator.Api.Status.States.{is_upgrading-set, is_ready-set, has_failed-set}

pub record View : Type 0 where
  pub is_upgrading : Bool
  pub has_failed : Bool
  pub is_ready : Bool
  pub current : String
  pub target : String

abbrev pub view : ZookeeperClusterStatus → View
view zs = record {
  is_upgrading = is_cluster_in_upgrading_state zs;
  has_failed = is_cluster_in_upgrade_failed_state zs;
  is_ready = is_cluster_in_ready_state zs;
  current = zs.current_version;
  target = zs.target_version;
}

-- The states do not depend on the versions.
pub view-record :
    (zs : ZookeeperClusterStatus) (c t : String)
    → view (record zs { current_version = c; target_version = t })
      ≡ record (view zs) { current = c; target = t }
unfolding is_cluster_in_upgrading_state is_cluster_in_upgrade_failed_state is_cluster_in_ready_state
    get_cluster_condition
view-record zs c t = refl

module _ (now : String) (zs : ZookeeperClusterStatus) where
  pub view-set :
      (new : ClusterCondition)
      → view (set_cluster_condition now new zs) ≡ record (view zs) {
        is_upgrading = (view (set_cluster_condition now new zs)).is_upgrading;
        has_failed = (view (set_cluster_condition now new zs)).has_failed;
        is_ready = (view (set_cluster_condition now new zs)).is_ready;
      }
  unfolding set_cluster_condition
  view-set new = refl

  pub view-set_upgrading_true :
      (reason message : String)
      → view (set_upgrading_condition_true now reason message zs)
        ≡ record (view zs) { is_upgrading = true }
  unfolding set_upgrading_condition_true new_cluster_condition
  view-set_upgrading_true reason message =
      rw view-set (rw (is_upgrading-set, is_ready-set, has_failed-set))

  pub view-set_upgrading_false :
      view (set_upgrading_condition_false now zs) ≡ record (view zs) { is_upgrading = false }
  unfolding set_upgrading_condition_false new_cluster_condition
  view-set_upgrading_false = rw view-set (rw (is_upgrading-set, is_ready-set, has_failed-set))

  pub view-set_pods_ready_false :
      view (set_pods_ready_condition_false now zs) ≡ record (view zs) { is_ready = false }
  unfolding set_pods_ready_condition_false new_cluster_condition
  view-set_pods_ready_false = rw view-set (rw (is_upgrading-set, is_ready-set, has_failed-set))

  pub view-set_pods_ready_true :
      view (set_pods_ready_condition_true now zs) ≡ record (view zs) { is_ready = true }
  unfolding set_pods_ready_condition_true new_cluster_condition
  view-set_pods_ready_true = rw view-set (rw (is_upgrading-set, is_ready-set, has_failed-set))

  pub view-set_error_true :
      (message : String)
      → view (set_error_condition_true now "UpgradeFailed" message zs)
        ≡ record (view zs) { has_failed = true }
  unfolding set_error_condition_true new_cluster_condition
  view-set_error_true message = rw view-set (rw (is_upgrading-set, is_ready-set, has_failed-set))

  pub view-set_error_false :
      view (set_error_condition_false now zs) ≡ record (view zs) { has_failed = false }
  unfolding set_error_condition_false new_cluster_condition
  view-set_error_false = rw view-set (rw (is_upgrading-set, is_ready-set, has_failed-set))

-- Progress is noted in an upgrade that runs, and is no change of state.
view-progress :
    (now reason n : String) (zs : ZookeeperClusterStatus) (b : Bool)
    → is_cluster_in_upgrading_state zs ≡ b
    → view (if b then set_upgrading_condition_true now reason n zs else zs) ≡ view zs
view-progress now reason n zs true h =
    view-set_upgrading_true now zs reason n ∙ (λ i. record (view zs) { is_upgrading = sym h i })
view-progress now reason n zs false h = refl

pub view-update_progress :
    (now reason n : String) (zs : ZookeeperClusterStatus)
    → view (update_progress now reason n zs) ≡ view zs
unfolding update_progress
view-update_progress now reason n zs =
    view-progress now reason n zs (is_cluster_in_upgrading_state zs) refl

-- whether an upgrade runs is the status of the condition
pub is_upgrading_lem :
    (zs : ZookeeperClusterStatus) (c : ClusterCondition)
    → condition zs upgrading ≡ some c
    → is_cluster_in_upgrading_state zs ≡ str_eq c.status condition_true
unfolding is_cluster_in_upgrading_state
is_upgrading_lem zs c h = rw h

pub is_upgrading-none :
    (zs : ZookeeperClusterStatus)
    → condition zs upgrading ≡ none
    → is_cluster_in_upgrading_state zs ≡ false
unfolding is_cluster_in_upgrading_state
is_upgrading-none zs h = rw h

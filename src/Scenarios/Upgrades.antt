-- ===== src/Scenarios/Upgrades.antt =====
-- Runs of the comparison of versions, of the StatefulSet's reconciliation and of the upgrade.
use zookeeper_operator.Prelude.{ℕ, pos, Bool, true, false, some, [], ◌∷◌, ◌≡◌, refl, arith, ap, sym}
use zookeeper_operator.Prelude.Dict.{get}
use zookeeper_operator.Std.Strconv.{itoa}
use zookeeper_operator.Kube.Objects.{StatefulSet}
use zookeeper_operator.Api.Types.{ZookeeperCluster}
use zookeeper_operator.Api.Status.{
  ZookeeperClusterStatus, get_cluster_condition, is_cluster_in_upgrading_state,
  is_cluster_in_ready_state, is_cluster_in_upgrade_failed_state,
}
use zookeeper_operator.Api.Status.View.{View, view}
use zookeeper_operator.Controller.Interfaces.{not_found, failure, Result, ok, err, Reconciler}
use zookeeper_operator.Controller.Op.{State}
use zookeeper_operator.Controller.Version.{less, compare_resource_version}
use zookeeper_operator.Controller.Version.Order.{compare_labelled}
use zookeeper_operator.Controller.Upgrade.{upgrade_stateful_set}
use zookeeper_operator.Controller.Upgrade.Steps.{KeepsStatus}
use zookeeper_operator.Controller.Upgrade.Machine.{upgrade_stateful_set-next}
use zookeeper_operator.Controller.Upgrade.Progress.{here as waited, wait, upgrade_runs_through}
use zookeeper_operator.Controller.Upgrade.Traces.{here, run, has_target, Reaches-has_target}
use zookeeper_operator.Controller.StatefulSets.Whole.{staleness, reconcile_stateful_set}
use zookeeper_operator.Std.Strings.{equal_fold}
use zookeeper_operator.Zk.Names.{headless_svc_name}
use zookeeper_operator.Api.Spec.{config_map_name}
use zookeeper_operator.Zk.Pods.{make_zk_pod_spec}
use zookeeper_operator.Zk.Workloads.{make_stateful_set}
use zookeeper_operator.Controller.StatefulSets.Whole.Recovery.{reconcile_stateful_set_recovered}
use zookeeper_operator.Controller.StatefulSets.Whole.Guards.{reconcile_stateful_set_stale}
use zookeeper_operator.Scenarios.Data.{
  condition_of, cluster, status, stored_set, wanted, wanted_lem, client, ensemble, reconciler,
}

-- version 7 against 9
compare_labelled_example : compare_resource_version cluster (stored_set (some (pos 3))) ≡ less
unfolding itoa get
compare_labelled_example =
    compare_labelled cluster (stored_set (some (pos 3))) 7 9 refl refl (omega arith) (omega arith)

abbrev server : Result StatefulSet → Bool → Reconciler ℕ
server sts reachable =
    reconciler (client (ok cluster) sts (err (not_found "")) (ok [])) (ensemble reachable)

abbrev start : State ℕ
start = record { instance = cluster; world = 0 }

running : is_cluster_in_upgrade_failed_state cluster.status ≡ false
unfolding is_cluster_in_upgrade_failed_state get_cluster_condition
running = refl

stale : compare_resource_version cluster (stored_set (some (pos 3))) ≡ less
unfolding itoa get
stale =
    compare_labelled cluster (stored_set (some (pos 3))) 7 9 refl refl (omega arith) (omega arith)

reconcile_stateful_set_stale_example :
    reconcile_stateful_set (server (ok (stored_set (some (pos 3)))) true) start
    ≡ (err (failure (staleness cluster (stored_set (some (pos 3))))), start)
reconcile_stateful_set_stale_example =
    reconcile_stateful_set_stale (server (ok (stored_set (some (pos 3)))) true) start wanted
      (stored_set (some (pos 3))) wanted.meta running refl wanted_lem refl refl stale

-- five members wanted, three stored
abbrev grown : StatefulSet
grown = stored_set (some (pos 5))

-- the status in an answer, or the cluster's
abbrev status_in : Result ZookeeperCluster → ZookeeperClusterStatus
status_in (ok z) = z.status
status_in (err e) = status

keeps : KeepsStatus (server (err (not_found "")) true)
keeps = record { kept = λ z stored w w' e. ap (λ p. status_in p.0) (sym e) }

upgrade_stateful_set-next_example :
    view
      (upgrade_stateful_set
        (server (err (not_found "")) true)
        (stored_set (some (pos 3)))
        start).1.instance.status
    ≡ record {
      is_upgrading = true;
      has_failed = false;
      is_ready = false;
      current = "0.2.15";
      target = "0.2.16";
    }
unfolding is_cluster_in_upgrading_state is_cluster_in_ready_state is_cluster_in_upgrade_failed_state
    get_cluster_condition
upgrade_stateful_set-next_example =
    upgrade_stateful_set-next (server (err (not_found "")) true) keeps (stored_set (some (pos 3)))
      start

-- the cluster after a failed upgrade to 0.2.16
abbrev broken : State ℕ
broken = record {
  instance = record cluster {
    status = record status {
      target_version = "0.2.16";
      conditions =
          condition_of "PodsReady" "True"
          ∷ condition_of "Upgrading" "True"
          ∷ record (condition_of "Error" "True") { reason = "UpgradeFailed" }
          ∷ [];
    };
  };
  world = 0;
}

broken_lem : is_cluster_in_upgrade_failed_state broken.instance.status ≡ true
unfolding is_cluster_in_upgrade_failed_state get_cluster_condition
broken_lem = refl

broken_wanted : make_stateful_set broken.instance ≡ some wanted
unfolding make_stateful_set make_zk_pod_spec equal_fold headless_svc_name config_map_name
broken_wanted = refl

abbrev rolled_out : StatefulSet
rolled_out = record (stored_set (some (pos 3))) {
  status = record (stored_set (some (pos 3))).status { current_revision = "b" };
}

reconcile_stateful_set_recovered_example :
    view (reconcile_stateful_set (server (ok rolled_out) true) broken).1.instance.status ≡ record {
      is_upgrading = false;
      has_failed = false;
      is_ready = true;
      current = "0.2.16";
      target = "";
    }
unfolding is_cluster_in_ready_state get_cluster_condition
reconcile_stateful_set_recovered_example =
    reconcile_stateful_set_recovered (server (ok rolled_out) true) broken wanted rolled_out
      rolled_out wanted.meta 1 broken_lem broken_wanted refl refl refl refl

abbrev steady_view : View
steady_view = record {
  is_upgrading = false;
  has_failed = false;
  is_ready = true;
  current = "0.2.15";
  target = "";
}

start_view : view start.instance.status ≡ steady_view
unfolding is_cluster_in_upgrading_state is_cluster_in_ready_state is_cluster_in_upgrade_failed_state
    get_cluster_condition
start_view = refl

Reaches-has_target_example :
    has_target (
      view
        (upgrade_stateful_set
          (server (err (not_found "")) true)
          (stored_set (some (pos 3)))
          start).1.instance.status)
    ≡ true
Reaches-has_target_example =
    Reaches-has_target (server (err (not_found "")) true) keeps steady_view
      (view
        (upgrade_stateful_set (server (err (not_found "")) true) (stored_set (some (pos 3)))
          start).1.instance.status)
      (run here (stored_set (some (pos 3))) start start_view refl) refl

abbrev rolling : StatefulSet
rolling = stored_set (some (pos 3))

-- the same cluster while the upgrade runs
abbrev upgrading_state : State ℕ
upgrading_state = record start {
  instance = record cluster {
    status = record status {
      target_version = "0.2.16";
      conditions =
          condition_of "PodsReady" "False"
          ∷ condition_of "Upgrading" "True"
          ∷ condition_of "Error" "False"
          ∷ [];
    };
  };
}

abbrev begin : State ℕ
begin = (upgrade_stateful_set (server (err (not_found "")) true) rolling start).1

begin_view : view upgrading_state.instance.status ≡ view begin.instance.status
unfolding is_cluster_in_upgrading_state is_cluster_in_ready_state is_cluster_in_upgrade_failed_state
    get_cluster_condition
begin_view = sym (upgrade_stateful_set-next (server (err (not_found "")) true) keeps rolling start)

upgrade_runs_through_example :
    view
      (upgrade_stateful_set
        (server (err (not_found "")) true)
        rolled_out
        (upgrade_stateful_set
          (server (err (not_found "")) true)
          rolling
          upgrading_state).1).1.instance.status
    ≡ record {
      is_upgrading = false;
      has_failed = false;
      is_ready = false;
      current = "0.2.16";
      target = "";
    }
unfolding is_cluster_in_upgrading_state is_cluster_in_ready_state is_cluster_in_upgrade_failed_state
    get_cluster_condition itoa
upgrade_runs_through_example =
    upgrade_runs_through (server (err (not_found "")) true) keeps rolling rolled_out start
      (upgrade_stateful_set (server (err (not_found "")) true) rolling upgrading_state).1
      (record {
        is_idle = refl;
        is_ready = refl;
        has_condition = refl;
        is_rolling = refl;
        has_tag = refl;
        is_new = refl;
      })
      (wait waited rolling upgrading_state begin_view refl refl) refl

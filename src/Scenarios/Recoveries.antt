-- ===== src/Scenarios/Recoveries.antt =====
-- An upgrade that passes its deadline, and rolls out later.
use mathlib.Core.Path.{subst}
use zookeeper_operator.Prelude.{ℕ, zero, suc, pos, true, false, some, [], ◌∷◌, ◌≡◌, refl, ap, sym}
use zookeeper_operator.Std.Strconv.{itoa}
use zookeeper_operator.Std.Strings.{equal_fold}
use zookeeper_operator.Kube.Objects.{StatefulSet}
use zookeeper_operator.Api.Types.{ZookeeperCluster}
use zookeeper_operator.Api.Spec.{config_map_name}
use zookeeper_operator.Api.Status.{
  ZookeeperClusterStatus, get_cluster_condition, get_last_condition, is_cluster_in_upgrading_state,
  is_cluster_in_ready_state, is_cluster_in_upgrade_failed_state,
}
use zookeeper_operator.Api.Status.View.{View, view}
use zookeeper_operator.Zk.Names.{headless_svc_name}
use zookeeper_operator.Zk.Pods.{make_zk_pod_spec}
use zookeeper_operator.Zk.Workloads.{make_stateful_set}
use zookeeper_operator.Controller.Interfaces.{not_found, Result, ok, err, Reconciler}
use zookeeper_operator.Controller.Op.{State}
use zookeeper_operator.Controller.Upgrade.{upgrade_stateful_set, check_sync_timeout}
use zookeeper_operator.Controller.Upgrade.Steps.{observe, KeepsStatus}
use zookeeper_operator.Controller.Upgrade.Progress.{
  Waits, here as waited, CanStart, Waits-started, upgrade_times_out,
}
use zookeeper_operator.Controller.StatefulSets.Whole.{reconcile_stateful_set}
use zookeeper_operator.Controller.StatefulSets.Whole.Recovery.{reconcile_stateful_set_unrecovered}
use zookeeper_operator.Controller.StatefulSets.Whole.Lifecycle.{
  Updates, Stuck, here, retry, upgrade_fails_and_recovers,
}
use zookeeper_operator.Scenarios.Data.{
  condition_of, cluster, status, stored_set, wanted, client, ensemble, reconciler,
}

abbrev rolling : StatefulSet
rolling = stored_set (some (pos 3))

abbrev rolled_out : StatefulSet
rolled_out = record rolling { status = record rolling.status { current_revision = "b" } }

-- what a Get finds: the roll-out ends with the first write
abbrev found : ℕ → StatefulSet
found zero = rolling
found (suc w) = rolled_out

abbrev server : Reconciler ℕ
server =
    let c = client (ok cluster) (err (not_found "")) (err (not_found "")) (ok []) in
    reconciler
      (record c {
        stateful_sets = record c.stateful_sets { get = λ namespace name w. ok (found w) };
      })
      (ensemble true)

abbrev status_in : Result ZookeeperCluster → ZookeeperClusterStatus
status_in (ok z) = z.status
status_in (err e) = status

keeps : KeepsStatus server
keeps = record { kept = λ z stored w w' e. ap (λ p. status_in p.0) (sym e) }

abbrev start : State ℕ
start = record { instance = cluster; world = 0 }

can_start : CanStart (observe server rolling start) (view start.instance.status)
unfolding is_cluster_in_upgrading_state is_cluster_in_ready_state get_cluster_condition
can_start = record {
  is_idle = refl;
  is_ready = refl;
  has_condition = refl;
  is_rolling = refl;
  has_tag = refl;
  is_new = refl;
}

-- the same cluster in the upgrade, where one member was updated long ago
abbrev stalled : State ℕ
stalled = record start {
  instance = record cluster {
    status = record status {
      target_version = "0.2.16";
      conditions =
          condition_of "PodsReady" "False"
          ∷ record (condition_of "Upgrading" "True") {
            reason = "Updating Zookeeper";
            message = "1";
          }
          ∷ condition_of "Error" "False"
          ∷ [];
    };
  };
}

abbrev begun : View
begun = view (upgrade_stateful_set server rolling start).1.instance.status

stalled_view : begun ≡ view stalled.instance.status
unfolding is_cluster_in_upgrading_state is_cluster_in_ready_state is_cluster_in_upgrade_failed_state
    get_cluster_condition
stalled_view =
    Waits-started server keeps rolling start (upgrade_stateful_set server rolling start).1 can_start
      waited

waits : Waits server begun (view stalled.instance.status)
waits = subst (λ v. Waits server begun v) stalled_view waited

late : (observe server rolling stalled).is_late ≡ true
unfolding itoa check_sync_timeout get_last_condition is_cluster_in_upgrading_state
    get_cluster_condition
late = refl

-- the same cluster behind the deadline
abbrev broken : State ℕ
broken = record stalled {
  instance = record cluster {
    status = record status {
      target_version = "0.2.16";
      conditions =
          condition_of "PodsReady" "False"
          ∷ condition_of "Upgrading" "True"
          ∷ record (condition_of "Error" "True") { reason = "UpgradeFailed" }
          ∷ [];
    };
  };
}

abbrev timed_out : View
timed_out = view (upgrade_stateful_set server rolling stalled).1.instance.status

broken_view : view broken.instance.status ≡ timed_out
unfolding is_cluster_in_upgrading_state is_cluster_in_ready_state is_cluster_in_upgrade_failed_state
    get_cluster_condition
broken_view =
    sym (upgrade_times_out server keeps rolling rolling start stalled can_start waits refl late)

broken_wanted : make_stateful_set broken.instance ≡ some wanted
unfolding make_stateful_set make_zk_pod_spec equal_fold headless_svc_name config_map_name
broken_wanted = refl

broken-Updates : Updates server broken rolling
broken-Updates = record {
  sts = wanted;
  found = rolling;
  meta = wanted.meta;
  world = 1;
  is_made = broken_wanted;
  is_owned = refl;
  is_found = refl;
  is_updated = refl;
}

abbrev rolled : State ℕ
rolled = record broken { world = 1 }

rolled-Updates : Updates server rolled rolled_out
rolled-Updates = record {
  sts = wanted;
  found = rolled_out;
  meta = wanted.meta;
  world = 2;
  is_made = broken_wanted;
  is_owned = refl;
  is_found = refl;
  is_updated = refl;
}

broken_failed : is_cluster_in_upgrade_failed_state broken.instance.status ≡ true
unfolding is_cluster_in_upgrade_failed_state get_cluster_condition
broken_failed = refl

-- one run that finds the roll-out still going on
stuck : Stuck server timed_out (view rolled.instance.status)
stuck =
    subst (λ (p : Result (Unit {0}) × State ℕ). Stuck server timed_out (view p.1.instance.status))
      (reconcile_stateful_set_unrecovered server broken wanted rolling rolling wanted.meta 1
        broken_failed broken_wanted refl refl refl refl)
      (retry here broken rolling broken_view broken-Updates refl)

upgrade_fails_and_recovers_example :
    view (reconcile_stateful_set server rolled).1.instance.status ≡ record {
      is_upgrading = false;
      has_failed = false;
      is_ready = false;
      current = "0.2.16";
      target = "";
    }
upgrade_fails_and_recovers_example =
    upgrade_fails_and_recovers server keeps rolling rolling rolled_out start stalled rolled
      can_start waits refl late stuck rolled-Updates refl

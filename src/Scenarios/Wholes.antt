-- ===== src/Scenarios/Wholes.antt =====
-- A whole run that succeeds, on a server with room for one service and one config map.
use zookeeper_operator.Prelude.{String, false, some, none, [], ◌∷◌, ◌≡◌, refl, sym, ap, scale_int}
use zookeeper_operator.Kube.Meta.{ObjectMeta}
use zookeeper_operator.Kube.Objects.{ConfigMap, StatefulSet}
use zookeeper_operator.Api.Types.{ZookeeperCluster}
use zookeeper_operator.Api.Status.{
  is_cluster_in_upgrading_state, is_cluster_in_upgrade_failed_state, get_cluster_condition,
}
use zookeeper_operator.Api.Spec.{
  with_defaults, spec_with_defaults, get_trigger_rolling_restart, set_trigger_rolling_restart,
  get_client_service_name, get_admin_server_service_name,
}
use zookeeper_operator.Api.Defaults.{
  is_blank, fill_text, image_with_defaults, pod_with_defaults, probes_with_defaults,
  labels_with_defaults, conf_with_defaults, add_label, fill_affinity, is_unset, fill,
}
use zookeeper_operator.Utils.Finalizer.{contains_string}
use zookeeper_operator.Zk.Config.{make_config_map}
use zookeeper_operator.Zk.Services.{
  make_client_service, make_headless_service, make_admin_server_service, make_service,
}
use zookeeper_operator.Zk.Pods.{make_zk_pod_spec}
use zookeeper_operator.Zk.Workloads.{make_stateful_set}
use zookeeper_operator.Std.Strings.{equal_fold}
use zookeeper_operator.Controller.Finalizers.{reconcile_finalizers, cleanup_orphan_pvcs}
use zookeeper_operator.Controller.Services.{
  reconcile_client_service, reconcile_config_map, reconcile_admin_server_service,
  reconcile_headless_service, reconcile_pod_disruption_budget,
}
use zookeeper_operator.Controller.StatefulSets.{reconcile_service_account, wanted_stateful_set}
use zookeeper_operator.Controller.StatefulSets.Whole.{reconcile_stateful_set, reconcile_running}
use zookeeper_operator.Controller.Members.{reconcile_cluster_status}
use zookeeper_operator.Controller.Interfaces.{ok, Reconciler}
use zookeeper_operator.Controller.Loop.{
  requeue_after, reconcile_time, prepare, run_all, steps, others, reconcile,
}
use zookeeper_operator.Api.Defaults.Ports.{ports_with_defaults}
use zookeeper_operator.Prelude.Dict.{has, get, put}
use zookeeper_operator.Zk.Names.{headless_svc_name}
use zookeeper_operator.Controller.Interfaces.Guarded.{Spares, Anything}
use zookeeper_operator.Controller.Services.Applied.{IsHeld, contents_of}
use zookeeper_operator.Controller.Loop.Applied.{reconcile-IsHeld}
use zookeeper_operator.Scenarios.Shelves.{Shelf, find, place-IsServer, nothing, operator}
use zookeeper_operator.Controller.StatefulSets.Whole.Applied.{HeldAs}
use zookeeper_operator.Scenarios.Sets.{admit, sets, sets-StoresSets}
use zookeeper_operator.Controller.Loop.Rolled.{SparesSets, reconcile-IsRolled}
use zookeeper_operator.Scenarios.Data.{or_stored, cluster, status, condition_of}

-- a cluster with its defaults filled in, in an upgrade
abbrev settled : ZookeeperCluster
settled =
    (prepare operator "today" (record cluster {
      spec = record cluster.spec {
        storage_type = "ephemeral";
        persistence = none;
        trigger_rolling_restart = false;
      };
      status = record status { conditions = condition_of "Upgrading" "True" ∷ [] };
    })).0

abbrev empty : Shelf
empty = record { service = none; config_map = none; stateful_set = none }

-- the server, which holds this cluster too
abbrev whole : Reconciler Shelf
whole = record operator {
  client = record operator.client {
    clusters = record nothing { get = λ namespace name w. ok settled };
    stateful_sets = sets;
  };
}

run_succeeds : (reconcile whole "ns" "zk" empty).0 ≡ requeue_after reconcile_time
unfolding reconcile_finalizers prepare with_defaults get_trigger_rolling_restart spec_with_defaults
    set_trigger_rolling_restart equal_fold cleanup_orphan_pvcs contains_string image_with_defaults
    is_blank pod_with_defaults fill_text reconcile_stateful_set reconcile_running
    reconcile_service_account wanted_stateful_set make_stateful_set make_zk_pod_spec
    is_cluster_in_upgrade_failed_state get_cluster_condition probes_with_defaults
    labels_with_defaults conf_with_defaults add_label ports_with_defaults fill_affinity is_unset
    fill scale_int has get put reconcile run_all steps others reconcile_config_map make_config_map
    reconcile_client_service reconcile_headless_service reconcile_admin_server_service
    make_client_service make_headless_service make_admin_server_service make_service
    reconcile_pod_disruption_budget reconcile_cluster_status is_cluster_in_upgrading_state
    get_client_service_name headless_svc_name get_admin_server_service_name
run_succeeds = refl

keeps_key :
    (m meta : ObjectMeta) → ok m ≡ ok meta → (meta.namespace ≡ m.namespace) × (meta.name ≡ m.name)
keeps_key m meta h =
    let same : m ≡ meta = cc in
    (ap (λ (x : ObjectMeta). x.namespace) (sym same), ap (λ (x : ObjectMeta). x.name) (sym same))

-- no other call touches the config map
whole-Spares :
    (ns n : String) (cm : ConfigMap)
    → Spares whole Anything (λ w. find (λ x. x.meta) ns n w.config_map ≡ some cm)
whole-Spares ns n cm = record {
  client = record {
    clusters = record {
      reads = λ namespace name w z h e. tt;
      stores = λ z w h k. record { leaves = k; stored = λ y e. tt };
      stores_status = λ z w h k. record { leaves = k; stored = λ y e. tt };
    };
    stateful_sets = record { creates = λ a w h. h; updates = λ a w h. h };
    serving = record {
      services = record { creates = λ a w h. h; updates = λ a w h. h };
      budgets = record { creates = λ a w h. h; updates = λ a w h. h };
    };
    service_accounts = record { creates = λ a w h. h; updates = λ a w h. h };
    deletes_pvc = λ namespace name w h. h;
  };
  ensemble = record {
    connects = λ uri w h. h;
    creates_node = λ z path w h. h;
    sees_node = λ path w h. h;
    updates_node = λ path value version w h. h;
    closes = λ w h. h;
  };
}

reconcile-IsHeld_example :
    IsHeld whole.client.config_maps
      (λ x. x.meta)
      contents_of
      (λ ns n w. find (λ x. x.meta) ns n w.config_map)
      (make_config_map
        (reconcile_finalizers whole
          (record { instance = (prepare whole "today" settled).0; world = empty })).1.instance)
      (reconcile whole "ns" "zk" empty).1
reconcile-IsHeld_example =
    reconcile-IsHeld whole (λ ns n w. find (λ x. x.meta) ns n w.config_map)
      (place-IsServer (λ x. x.meta) contents_of (λ w. w.config_map)
        (λ cm w. record w { config_map = some cm }) (λ a w. refl))
      (λ owner m meta h. keeps_key m meta h) whole-Spares "ns" "zk" empty settled refl run_succeeds

-- the cluster that is left in memory when the StatefulSet is reconciled, and its StatefulSet
abbrev last : ZookeeperCluster
last =
    (reconcile_finalizers whole
      (record { instance = (prepare whole "today" settled).0; world = empty })).1.instance

abbrev last_set : StatefulSet
last_set = or_stored (make_stateful_set last)

last-made :
    (make_stateful_set last ≡ some last_set)
    × (is_cluster_in_upgrade_failed_state last.status ≡ false)
unfolding reconcile_finalizers prepare with_defaults get_trigger_rolling_restart spec_with_defaults
    set_trigger_rolling_restart equal_fold cleanup_orphan_pvcs contains_string image_with_defaults
    is_blank pod_with_defaults fill_text make_stateful_set make_zk_pod_spec
    is_cluster_in_upgrade_failed_state get_cluster_condition probes_with_defaults
    labels_with_defaults conf_with_defaults add_label ports_with_defaults fill_affinity is_unset
    fill scale_int has get put headless_svc_name
last-made = (refl, refl)

-- no other call touches the StatefulSet
whole-SparesSets :
    (ns n : String) (b : StatefulSet)
    → SparesSets whole (λ w. find (λ x. x.meta) ns n w.stateful_set ≡ some b)
whole-SparesSets ns n b = record {
  clusters = record {
    reads = λ namespace name w z h e. tt;
    stores = λ z w h k. record { leaves = k; stored = λ y e. tt };
    stores_status = λ z w h k. record { leaves = k; stored = λ y e. tt };
  };
  serving = record {
    services = record { creates = λ a w h. h; updates = λ a w h. h };
    budgets = record { creates = λ a w h. h; updates = λ a w h. h };
  };
  ensemble = record {
    connects = λ uri w h. h;
    creates_node = λ z path w h. h;
    sees_node = λ path w h. h;
    updates_node = λ path value version w h. h;
    closes = λ w h. h;
  };
}

reconcile-IsRolled_example :
    HeldAs
      (λ ns n w. find (λ x. x.meta) ns n w.stateful_set)
      admit
      last_set
      (reconcile whole "ns" "zk" empty).1
reconcile-IsRolled_example =
    reconcile-IsRolled whole (λ ns n w. find (λ x. x.meta) ns n w.stateful_set) admit
      sets-StoresSets whole-SparesSets "ns" "zk" empty settled last_set last_set.meta refl
      last-made.1 last-made.0 refl run_succeeds

-- ===== src/Scenarios/Servers.antt =====
-- A server that stores one cluster, as the world of whole runs.
use mathlib.Core.Path.{subst}
use zookeeper_operator.Prelude.{
  String, str_eq, eq_iff, Bool, true, false, ◌||◌, [], ◌∷◌, pos, ◌≡◌, refl, arith,
}
use zookeeper_operator.Api.Types.{ZookeeperCluster}
use zookeeper_operator.Api.Status.{ZookeeperClusterStatus}
use zookeeper_operator.Api.Status.Unique.{HasUniqueTypes}
use zookeeper_operator.Controller.Interfaces.{
  not_found, failure, Result, ok, err, Resource, Client, ZookeeperClient, Reconciler,
}
use zookeeper_operator.Controller.Interfaces.Guarded.{KeepsWorld, Answers, Spares, Guards, On}
use zookeeper_operator.Controller.Loop.{reconcile}
use zookeeper_operator.Controller.Loop.Versions.{
  Versions, History, start, reconciled, changed, reconcile_keeps_versions, reconcile_keeps_unique,
}
use zookeeper_operator.Scenarios.Data.{cluster, status, condition_of}

-- nothing but clusters is stored
abbrev missing : {A : Type 0} → Resource ZookeeperCluster A
missing = record {
  get = λ namespace name w. err (not_found name);
  create = λ a w. (ok a, w);
  update = λ a w. (ok a, w);
}

abbrev server : Client ZookeeperCluster
server = record {
  clusters = record {
    get = λ namespace name w. ok w;
    create = λ z w. (ok z, z);
    update = λ z w. (ok z, z);
  };
  update_status = λ z w. (ok z, z);
  stateful_sets = missing;
  services = missing;
  config_maps = missing;
  budgets = missing;
  service_accounts = missing;
  list_pods = λ namespace labels w. ok [];
  list_pvcs = λ namespace labels w. ok [];
  delete_pvc = λ namespace name w. (ok tt, w);
}

abbrev quiet : ZookeeperClient ZookeeperCluster
quiet = record {
  connect = λ uri w. (err (failure "refused"), w);
  create_node = λ z path w. (ok tt, w);
  node_exists = λ path w. (ok (pos 0), w);
  update_node = λ path value version w. (ok tt, w);
  close = λ w. w;
}

abbrev operator : Reconciler ZookeeperCluster
operator = record {
  client = server;
  zk_client = quiet;
  clock = record { now = λ w. "now"; today = λ w. "today"; is_past = λ t n w. true };
  set_controller_reference = λ owner m. ok m;
  is_zero = λ q. false;
  disable_finalizer = false;
}

module _ (J : String → ZookeeperClusterStatus → Type 0) where
  missing-KeepsWorld : {A : Type 0} → KeepsWorld (On J) (missing {A = A})
  missing-KeepsWorld = record { creates = λ a w h. h; updates = λ a w h. h }

  same_On :
      (z y : ZookeeperCluster) (answer : Result ZookeeperCluster)
      → On J z
      → answer ≡ ok z
      → answer ≡ ok y
      → On J y
  same_On z y answer h p q = let same : z ≡ y = cc in subst (On J) same h

  stored-Answers : (z : ZookeeperCluster) → On J z → Answers J (On J) (ok z, z)
  stored-Answers z h = record { leaves = h; stored = λ y e. same_On z y (ok z) h refl e }

  operator-Spares : Spares operator J (On J)
  operator-Spares = record {
    client = record {
      clusters = record {
        reads = λ namespace name w z h e. same_On w z (ok w) h refl e;
        stores = λ z w h k. stored-Answers z h;
        stores_status = λ z w h k. stored-Answers z h;
      };
      stateful_sets = missing-KeepsWorld;
      serving = record { services = missing-KeepsWorld; budgets = missing-KeepsWorld };
      service_accounts = missing-KeepsWorld;
      deletes_pvc = λ namespace name w h. h;
    };
    ensemble = record {
      connects = λ uri w h. h;
      creates_node = λ z path w h. h;
      sees_node = λ path w h. h;
      updates_node = λ path value version w h. h;
      closes = λ w h. h;
    };
  }

  operator-Guards : Guards operator J (On J)
  operator-Guards = record { spares = operator-Spares; config_maps = missing-KeepsWorld }

is_known : String → Bool
is_known t = str_eq t "" || str_eq t "0.2.15" || str_eq t "0.2.16"

abbrev IsKnown : String → Type 0
IsKnown t = is_known t ≡ true

-- two runs, and between them a user who asks for four members
abbrev scaled : ZookeeperCluster → ZookeeperCluster
scaled z = record z { spec = record z.spec { replicas = pos 4 } }

abbrev run : ZookeeperCluster → ZookeeperCluster
run z = (reconcile operator "ns" "zk" z).1

history :
    (J : String → ZookeeperClusterStatus → Type 0) (z : ZookeeperCluster)
    → History operator (On J) z (run (scaled (run z)))
history J z = reconciled (changed (reconciled start "ns" "zk") (scaled (run z)) (λ h. h)) "ns" "zk"

reconcile_keeps_versions_example : On (Versions IsKnown) (run (scaled (run cluster)))
unfolding is_known
reconcile_keeps_versions_example =
    reconcile_keeps_versions operator IsKnown (On (Versions IsKnown)) refl refl
      (operator-Guards (Versions IsKnown)) cluster (run (scaled (run cluster)))
      (history (Versions IsKnown) cluster) (refl, refl, refl)

-- before Init has added the other two conditions
abbrev young : ZookeeperCluster
young = record cluster {
  status = record status { conditions = condition_of "PodsReady" "True" ∷ [] };
}

young_unique : HasUniqueTypes young.status
young_unique t = ground (arith, eq_iff t "PodsReady")

reconcile_keeps_unique_example : HasUniqueTypes (run (scaled (run young))).status
reconcile_keeps_unique_example =
    reconcile_keeps_unique operator (On (λ tag zs. HasUniqueTypes zs))
      (operator-Guards (λ tag zs. HasUniqueTypes zs)) young (run (scaled (run young)))
      (history (λ tag zs. HasUniqueTypes zs) young) young_unique

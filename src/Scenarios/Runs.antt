-- ===== src/Scenarios/Runs.antt =====
-- Runs of the reconciliation's loop, of the members' status and of the client service.
use zookeeper_operator.Prelude.{
  ℕ, pos, String, Bool, true, false, List, [], ◌∷◌, ◌≡◌, refl, scale_int,
}
use zookeeper_operator.Kube.Meta.{no_meta}
use zookeeper_operator.Kube.Pods.{Pod}
use zookeeper_operator.Kube.Objects.{Service}
use zookeeper_operator.Api.Defaults.{is_unset, fill}
use zookeeper_operator.Controller.Interfaces.{not_found, failure, ok, err, Reconciler}
use zookeeper_operator.Controller.Op.{State}
use zookeeper_operator.Controller.Loop.{prepare, run_all, steps, answer_of, reconcile}
use zookeeper_operator.Controller.Loop.Runs.{reconcile_settles}
use zookeeper_operator.Controller.Members.{reconcile_cluster_status}
use zookeeper_operator.Api.Status.View.{view}
use zookeeper_operator.Controller.Upgrade.{update_instance_status}
use zookeeper_operator.Controller.Members.Sent.{reconcile_cluster_status_sent}
use zookeeper_operator.Controller.Members.Metadata.{noted, reconcile_cluster_status_refused}
use zookeeper_operator.Controller.Ensemble.{Connection, create_node_client}
use zookeeper_operator.Controller.Ensemble.Nodes.{create_node_client_rooted}
use zookeeper_operator.Utils.Zookeeper.{get_meta_path}
use zookeeper_operator.Prelude.{str_eq, if◌then◌else◌, suc, some}
use zookeeper_operator.Api.Status.{
  ZookeeperClusterStatus, get_cluster_condition, is_cluster_in_upgrading_state,
  is_cluster_in_upgrade_failed_state,
}
use zookeeper_operator.Controller.Interfaces.{Result}
use zookeeper_operator.Scenarios.Data.{bare, cluster, client, ensemble, reconciler}

abbrev pod : String → List Bool → Pod
pod name ready = record {
  meta = record no_meta { name = name };
  containers_ready = ready;
  reason = "";
}

-- the service on the server, which has an address now
abbrev stored_service : Service
stored_service = record {
  type_meta = record { kind = "Service"; api_version = "v1" };
  meta = record no_meta { name = "zk-client"; namespace = "ns" };
  spec = record { ports = []; selector = []; type = "LoadBalancer"; cluster_ip = "10.0.0.1" };
  ingress_ips = "" ∷ "1.2.3.4" ∷ [];
}

abbrev base : Reconciler ℕ
base =
    reconciler (client (ok cluster) (err (not_found "")) (ok stored_service) (ok []))
      (ensemble true)

abbrev start : State ℕ
start = record { instance = cluster; world = 0 }

-- the server after the first run
abbrev prepared : Reconciler ℕ
prepared =
    reconciler
      (client (ok (prepare base "today" bare).0) (err (not_found "")) (err (not_found "")) (ok []))
      (ensemble true)

reconcile_settles_example :
    let (answer, s) =
      run_all prepared
        (steps prepared)
        (record { instance = (prepare prepared "today" bare).0; world = 0 }) in
    reconcile prepared "ns" "zk" 0 ≡ (answer_of prepared answer, s.world)
unfolding is_unset fill scale_int prepare
reconcile_settles_example = reconcile_settles prepared "ns" "zk" "today" bare 0 refl refl refl refl

-- an ensemble that can be reached, and creates no node
abbrev refusing : Reconciler ℕ
refusing = record base {
  zk_client = record (ensemble true) { create_node = λ z path w. (err (failure "exists"), suc w) };
}

abbrev unmarked : State ℕ
unmarked = record {
  instance = record cluster { status = record cluster.status { meta_root_created = false } };
  world = 0;
}

steady :
    (is_cluster_in_upgrading_state unmarked.instance.status ≡ false)
    × (is_cluster_in_upgrade_failed_state unmarked.instance.status ≡ false)
unfolding is_cluster_in_upgrading_state is_cluster_in_upgrade_failed_state get_cluster_condition
steady = (refl, refl)

reconcile_cluster_status_refused_example : reconcile_cluster_status refusing unmarked ≡ (
  err (failure "Error creating cluster metadata path /zookeeper-operator/zk, exists"),
  record { instance = noted "now" [] unmarked.instance; world = 3 },
)
unfolding get_meta_path
reconcile_cluster_status_refused_example =
    reconcile_cluster_status_refused refusing unmarked [] (failure "exists") 1 2 steady.0 steady.1
      refl refl refl refl refl

-- a connection that creates every node, and one on which the root is there
abbrev connection : Result (Unit {0}) → Connection ℕ
connection root = record {
  dial = λ uri w. (ok tt, w);
  create = λ path value w. (if str_eq path "/zookeeper-operator" then root else ok tt, suc w);
  set = λ path value version w. (ok tt, suc w);
  exists = λ path w. (ok (some (pos 0)), w);
  hang_up = λ w. w;
}

create_node_client_rooted_example :
    create_node_client (connection (err (failure "exists"))) cluster (get_meta_path cluster) 0
    ≡ (err (failure "Error creating parent zkNode: /zookeeper-operator: exists"), 1)
create_node_client_rooted_example =
    create_node_client_rooted (connection (err (failure "exists"))) cluster 0 1 refl
      (failure "exists") refl

start_steady :
    (is_cluster_in_upgrading_state cluster.status ≡ false)
    × (is_cluster_in_upgrade_failed_state cluster.status ≡ false)
unfolding is_cluster_in_upgrading_state is_cluster_in_upgrade_failed_state get_cluster_condition
start_steady = (refl, refl)

-- two members, one of them ready, where three are wanted and counted
abbrev listing : Reconciler ℕ
listing = record base {
  client = record base.client {
    list_pods = λ namespace labels w. ok (pod "a" (true ∷ []) ∷ pod "b" (false ∷ []) ∷ []);
  };
}

reconcile_cluster_status_sent_example :
    (status : ZookeeperClusterStatus) × (reconcile_cluster_status listing start
      ≡ update_instance_status listing
          (record start { instance = record cluster { status = status } }))
    × (status.members ≡ record { ready = "a" ∷ []; unready = "b" ∷ [] })
    × (view status ≡ record {
      is_upgrading = false;
      has_failed = false;
      is_ready = true;
      current = "0.2.15";
      target = "";
    })
reconcile_cluster_status_sent_example =
    reconcile_cluster_status_sent listing start (pod "a" (true ∷ []) ∷ pod "b" (false ∷ []) ∷ [])
      start_steady.0 start_steady.1 refl refl

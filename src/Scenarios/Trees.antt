-- ===== src/Scenarios/Trees.antt =====
-- An ensemble whose state is its tree of nodes, and runs of the operator on it.
use zookeeper_operator.Prelude.{
  pos, String, str_eq, eq_iff, eq_refl, true, false, Option, none, some, [], ◌≡◌, ◌≢◌, refl, ap,
  arith, if◌then◌else◌,
}
use zookeeper_operator.Api.Status.{
  is_cluster_in_upgrading_state, is_cluster_in_upgrade_failed_state, get_cluster_condition,
}
use zookeeper_operator.Std.Strconv.{itoa}
use zookeeper_operator.Utils.Zookeeper.{get_meta_path}
use zookeeper_operator.Controller.Interfaces.{
  not_found, failure, Result, ok, err, Resource, Reconciler,
}
use zookeeper_operator.Controller.Interfaces.Guarded.{SparesClient, Anything}
use zookeeper_operator.Controller.Op.{State}
use zookeeper_operator.Controller.Ensemble.{Connection, default_client}
use zookeeper_operator.Controller.Ensemble.Served.{Node, version_at, Holds, Serves}
use zookeeper_operator.Controller.StatefulSets.{apply_size}
use zookeeper_operator.Controller.Members.{reconcile_cluster_status}
use zookeeper_operator.Controller.Members.Sizes.{Sized, created, resized, metadata_follows_size}
use zookeeper_operator.Scenarios.Data.{cluster, stored_set}

abbrev Tree : Type 0
Tree = String → Option Node

abbrev put : String → Node → Tree → Tree
put path n t other = if str_eq path other then some n else t other

-- Create on a path where there is a node fails
abbrev make_node : String → Option String → Option Node → Tree → Result (Unit {0}) × Tree
make_node path value none t = (ok tt, put path (record { value = value; version = pos 0 }) t)
make_node path value (some n) t = (err (failure "exists"), t)

abbrev set_node : String → String → Option Node → Tree → Result (Unit {0}) × Tree
set_node path value none t = (err (failure "no node"), t)
set_node path value (some n) t = (ok tt, put path (record n { value = some value }) t)

abbrev tree : Connection Tree
tree = record {
  dial = λ uri t. (ok tt, t);
  create = λ path value t. make_node path value (t path) t;
  set = λ path value version t. set_node path value (t path) t;
  exists = λ path t. (ok (version_at (t path)), t);
  hang_up = λ t. t;
}

made :
    (path : String) (value : Option String) (found : Option Node) (t : Tree)
    → (make_node path value found t).0 ≡ ok tt
    → (make_node path value found t).1 path ≡ some (record { value = value; version = pos 0 })
made path value none t h = rw (eq_refl path)
made path value (some n) t h = cc

other_kept :
    (path other : String) (value : Option String) (found : Option Node) (t : Tree)
    → path ≢ other
    → (make_node path value found t).1 other ≡ t other
other_kept path other value none t h = ground (arith, eq_iff path other)
other_kept path other value (some n) t h = refl

tree-Serves : Serves tree (λ t. t)
tree-Serves = record {
  dials = λ uri t. refl;
  dial_keeps = λ uri t. refl;
  hang_up_keeps = λ t. refl;
  creates = λ parent name value t plain named under free. rw free;
  created = λ path value t h. made path value (t path) t h;
  create_keeps = λ path other value t h. other_kept path other value (t path) t h;
  sees = λ path t. refl;
  exists_keeps = λ path t. refl;
  sets = λ path value n t h. (n.version, rw (h, eq_refl path));
}

-- an API server that accepts every write and keeps nothing
abbrev accepting : {A : Type 0} → Resource Tree A
accepting = record {
  get = λ namespace name t. err (not_found name);
  create = λ a t. (ok a, t);
  update = λ a t. (ok a, t);
}

abbrev server : Reconciler Tree
server = record {
  client = record {
    clusters = accepting;
    update_status = λ z t. (ok z, t);
    stateful_sets = accepting;
    services = accepting;
    config_maps = accepting;
    budgets = accepting;
    service_accounts = accepting;
    list_pods = λ namespace labels t. ok [];
    list_pvcs = λ namespace labels t. ok [];
    delete_pvc = λ namespace name t. (ok tt, t);
  };
  zk_client = default_client tree;
  clock = record { now = λ t. "now"; today = λ t. "today"; is_past = λ z n t. true };
  set_controller_reference = λ owner m. ok m;
  is_zero = λ q. false;
  disable_finalizer = false;
}

server-SparesClient :
    (path : String) (n : Option Node) → SparesClient server Anything (λ t. t path ≡ n)
server-SparesClient path n = record {
  clusters = record {
    reads = λ namespace name t z h e. tt;
    stores = λ z t h k. record { leaves = k; stored = λ y e. tt };
    stores_status = λ z t h k. record { leaves = k; stored = λ y e. tt };
  };
  stateful_sets = record { creates = λ a t h. h; updates = λ a t h. h };
  serving = record {
    services = record { creates = λ a t h. h; updates = λ a t h. h };
    budgets = record { creates = λ a t h. h; updates = λ a t h. h };
  };
  service_accounts = record { creates = λ a t h. h; updates = λ a t h. h };
  deletes_pvc = λ namespace name t h. h;
}

-- a ready cluster of three members whose metadata node is not marked as created, and no node
abbrev first : State Tree
first = record {
  instance = record cluster { status = record cluster.status { meta_root_created = false } };
  world = λ path. none;
}

steady :
    (is_cluster_in_upgrading_state first.instance.status ≡ false)
    × (is_cluster_in_upgrade_failed_state first.instance.status ≡ false)
unfolding is_cluster_in_upgrading_state is_cluster_in_upgrade_failed_state get_cluster_condition
steady = (refl, refl)

-- the run that creates the node, and a run that grows the StatefulSet from three members to five
abbrev second : State Tree
second = record { instance = cluster; world = (reconcile_cluster_status server first).1.world }

abbrev grown : Tree
grown = (apply_size server (stored_set (some (pos 3))) (stored_set (some (pos 5))) second).1.world

abbrev node : String
node = "/zookeeper-operator/zk"

named : ◌≢◌ {A = String} "zk" ""
named e = let h : false ≡ true = ap (λ t. str_eq t "") e in cc

grown-Sized : Sized server tree (λ t. t) node (pos 5) grown
unfolding get_meta_path
grown-Sized =
    resized second (stored_set (some (pos 3))) (stored_set (some (pos 5))) (pos 3) (pos 5)
      (created first [] steady.0 steady.1 refl refl refl refl refl named refl refl) refl refl refl
      refl

metadata_follows_size_example : Holds grown node "CLUSTER_SIZE=5"
unfolding itoa
metadata_follows_size_example =
    metadata_follows_size server tree (λ t. t) tree-Serves server-SparesClient node (pos 5) grown
      grown-Sized

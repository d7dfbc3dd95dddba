-- ===== src/Scenarios/Data.antt =====
-- A cluster `zk` of three members, and a server whose state is the number of the writes that it took.
use zookeeper_operator.Prelude.{
  ℕ, suc, ℤ, pos, String, str_eq, Bool, true, false, Option, none, some, List, [], ◌∷◌, ◌≡◌, refl,
}
use zookeeper_operator.Kube.Json.{empty_object}
use zookeeper_operator.Kube.Meta.{ObjectMeta, no_meta}
use zookeeper_operator.Kube.Pods.{PersistentVolumeClaim}
use zookeeper_operator.Kube.Objects.{StatefulSet, Service}
use zookeeper_operator.Api.Types.{ZookeeperClusterSpec, ZookeeperCluster}
use zookeeper_operator.Api.Status.{ClusterCondition, ZookeeperClusterStatus}
use zookeeper_operator.Api.Defaults.{default_readiness_probe, default_liveness_probe}
use zookeeper_operator.Api.Defaults.Ports.{default_ports}
use zookeeper_operator.Std.Strings.{equal_fold}
use zookeeper_operator.Zk.Pods.{make_zk_pod_spec}
use zookeeper_operator.Zk.Workloads.{make_stateful_set}
use zookeeper_operator.Controller.Interfaces.{
  Result, ok, err, not_found, failure, Resource, Client, ZookeeperClient, Clock, Reconciler,
}

abbrev pub meta : ObjectMeta
meta = record no_meta { name = "zk"; namespace = "ns"; uid = "u"; resource_version = "7" }

-- a specification in which everything is still to be filled in
abbrev pub bare_spec : ZookeeperClusterSpec
bare_spec = record {
  image = record { repository = ""; tag = ""; pull_policy = "" };
  labels = none;
  replicas = pos 3;
  ports = none;
  pod = record {
    labels = none;
    node_selector = empty_object;
    affinity = none;
    topology_spread_constraints = empty_object;
    resources = record { limits = none; requests = none };
    tolerations = empty_object;
    env = [];
    annotations = none;
    security_context = none;
    termination_grace_period_seconds = pos 0;
    service_account_name = "";
    image_pull_secrets = [];
  };
  admin_server_service = record { annotations = none; external = false };
  client_service = record { annotations = none };
  trigger_rolling_restart = true;
  headless_service = record { annotations = none };
  storage_type = "";
  persistence = none;
  ephemeral = none;
  conf = record {
    init_limit = pos 0;
    tick_time = pos 0;
    sync_limit = pos 0;
    global_outstanding_limit = pos 0;
    pre_alloc_size = pos 0;
    snap_count = pos 0;
    commit_log_count = pos 0;
    snap_size_limit_in_kb = pos 0;
    max_cnxns = pos 0;
    max_client_cnxns = pos 0;
    min_session_timeout = pos 0;
    max_session_timeout = pos 0;
    auto_purge_snap_retain_count = pos 0;
    auto_purge_purge_interval = pos 0;
    quorum_listen_on_all_ips = false;
    additional_config = none;
  };
  domain_name = "";
  kubernetes_cluster_domain = "";
  containers = [];
  init_containers = none;
  volumes = [];
  volume_mounts = [];
  probes = none;
  max_unavailable_replicas = pos 0;
}

-- one that the generators can work with
abbrev pub spec : ZookeeperClusterSpec
spec = record bare_spec {
  image = record { repository = "zookeeper"; tag = "0.2.16"; pull_policy = "Always" };
  labels = some (("app", "zk") ∷ []);
  ports = some default_ports;
  pod = record bare_spec.pod { service_account_name = "default" };
  storage_type = "persistence";
  persistence = some (record {
    volume_reclaim_policy = "Delete";
    persistent_volume_claim_spec = record {
      access_modes = [];
      requests = [];
      other = empty_object;
    };
    annotations = none;
  });
  probes = some (record {
    readiness_probe = some default_readiness_probe;
    liveness_probe = some default_liveness_probe;
  });
}

abbrev pub condition_of : String → String → ClusterCondition
condition_of t status = record {
  type = t;
  status = status;
  reason = "";
  message = "";
  last_update_time = "then";
  last_transition_time = "then";
}

abbrev pub status : ZookeeperClusterStatus
status = record {
  members = record { ready = []; unready = [] };
  replicas = pos 3;
  ready_replicas = pos 3;
  internal_client_endpoint = "";
  external_client_endpoint = "";
  meta_root_created = true;
  current_version = "0.2.15";
  target_version = "";
  conditions =
      condition_of "PodsReady" "True"
      ∷ condition_of "Upgrading" "False"
      ∷ condition_of "Error" "False"
      ∷ [];
}

abbrev pub bare : ZookeeperCluster
bare = record { meta = meta; spec = bare_spec; status = status }

abbrev pub cluster : ZookeeperCluster
cluster = record { meta = meta; spec = spec; status = status }

-- the StatefulSet on the server, last written from the cluster's version 9
abbrev pub stored_set : Option ℤ → StatefulSet
stored_set replicas = record {
  type_meta = record { kind = "StatefulSet"; api_version = "apps/v1" };
  meta = record no_meta { name = "zk"; namespace = "ns"; labels = some (("owner-rv", "9") ∷ []) };
  spec = record {
    service_name = "zk-headless";
    replicas = replicas;
    selector = ("app", "zk") ∷ [];
    update_strategy = "RollingUpdate";
    pod_management_policy = "OrderedReady";
    template = record {
      meta = no_meta;
      spec = record {
        containers = [];
        init_containers = none;
        volumes = [];
        affinity = none;
        topology_spread_constraints = empty_object;
        security_context = none;
        node_selector = empty_object;
        tolerations = empty_object;
        termination_grace_period_seconds = pos 0;
        service_account_name = "";
      };
    };
    volume_claim_templates = [];
  };
  status = record {
    replicas = pos 3;
    ready_replicas = pos 3;
    updated_replicas = pos 1;
    current_revision = "a";
    update_revision = "b";
  };
}

abbrev pub or_stored : Option StatefulSet → StatefulSet
or_stored none = stored_set none
or_stored (some s) = s

-- the StatefulSet that MakeStatefulSet makes
abbrev pub wanted : StatefulSet
wanted = or_stored (make_stateful_set cluster)

pub wanted_lem : make_stateful_set cluster ≡ some wanted
unfolding make_stateful_set make_zk_pod_spec equal_fold
wanted_lem = refl

pub wanted_labels : wanted.meta.labels ≡ some (("app", "zk") ∷ [])
unfolding make_stateful_set make_zk_pod_spec equal_fold
wanted_labels = refl

abbrev pub claim : String → PersistentVolumeClaim
claim name = record {
  meta = record no_meta { name = name; namespace = "ns" };
  spec = record { access_modes = []; requests = []; other = empty_object };
}

-- the claims of four members
abbrev pub claims : List PersistentVolumeClaim
claims = claim "data-zk-0" ∷ claim "data-zk-1" ∷ claim "data-zk-2" ∷ claim "data-zk-3" ∷ []

-- every write is accepted, and returned as it was sent
abbrev pub resource : {A : Type 0} → Result A → Resource ℕ A
resource found = record {
  get = λ namespace name w. found;
  create = λ a w. (ok a, suc w);
  update = λ a w. (ok a, suc w);
}

abbrev pub client :
    Result ZookeeperCluster
    → Result StatefulSet
    → Result Service
    → Result (List PersistentVolumeClaim)
    → Client ℕ
client zk sts svc pvcs = record {
  clusters = resource zk;
  update_status = λ z w. (ok z, suc w);
  stateful_sets = resource sts;
  services = resource svc;
  config_maps = resource (err (not_found "config map"));
  budgets = resource (err (not_found "budget"));
  service_accounts = resource (err (not_found "service account"));
  list_pods = λ namespace labels w. ok [];
  list_pvcs = λ namespace labels w. pvcs;
  delete_pvc = λ namespace name w. (err (failure "busy"), suc w);
}

-- the ensemble, which can be reached or not
abbrev pub ensemble : Bool → ZookeeperClient ℕ
ensemble true = record {
  connect = λ uri w. (ok tt, suc w);
  create_node = λ z path w. (ok tt, suc w);
  node_exists = λ path w. (ok (pos 4), suc w);
  update_node = λ path value version w. (err (failure "bad version"), suc w);
  close = suc;
}
ensemble false = record {
  connect = λ uri w. (err (failure "refused"), suc w);
  create_node = λ z path w. (ok tt, suc w);
  node_exists = λ path w. (ok (pos 4), suc w);
  update_node = λ path value version w. (ok tt, suc w);
  close = suc;
}

abbrev pub clock : Clock ℕ
clock = record { now = λ w. "now"; today = λ w. "today"; is_past = λ t n w. true }

abbrev pub reconciler : Client ℕ → ZookeeperClient ℕ → Reconciler ℕ
reconciler c zk = record {
  client = c;
  zk_client = zk;
  clock = clock;
  set_controller_reference = λ owner m. ok m;
  is_zero = λ q. str_eq q "0";
  disable_finalizer = false;
}

-- ===== src/Scenarios/Copies.antt =====
-- Copies of concrete values in memory.
use zookeeper_operator.Prelude.{
  ℕ, suc, ◌+◌, true, ltb, none, some, List, [], ◌∷◌, ◌≡◌, refl, arith, if◌then◌else◌,
}
use zookeeper_operator.Memory.{pointer, Writes}
use zookeeper_operator.Memory.Fresh.{Run, stop, next, IsDeep, Spare}
use zookeeper_operator.Kube.Copies.{foreign, CopyInto, Copies, AreDeep}
use zookeeper_operator.Api.Status.{ZookeeperClusterStatus}
use zookeeper_operator.Api.Copies.Status.{
  ZookeeperClusterStatusMemory, status_form, members_form, deep_copy_into_members, deep_copy_status,
  deep_copy_into_status,
}
use zookeeper_operator.Api.Copies.Clusters.{
  cluster_form, deep_copy_cluster, list_form, deep_copy_list,
}
use zookeeper_operator.Api.Copies.Whole.{deep_copy_cluster-IsDeep}
use zookeeper_operator.Controller.Interfaces.{not_found, ok, err, Reconciler}
use zookeeper_operator.Controller.Op.{State}
use zookeeper_operator.Controller.Upgrade.{clear_upgrade_status}
use zookeeper_operator.Controller.Upgrade.InMemory.{
  ClusterMemory, value_of, Update, clear_status, clear_in_memory,
}
use zookeeper_operator.Controller.Upgrade.InMemory.Copied.{read_outcome, clear_in_memory-reads}
use zookeeper_operator.Scenarios.Data.{cluster, condition_of, client, ensemble, reconciler}

-- A copy of an object with as many new addresses as it held.
renumber : List ℕ → ℕ → List ℕ × ℕ
renumber [] n = ([], n)
renumber (a ∷ xs) n = let (ys, m) = renumber xs (suc n) in (n ∷ ys, m)

copy_object : {V : Type 0} → CopyInto V
unfolding renumber
copy_object t n = let (xs, m) = renumber t.held n in (record t { held = xs }, m)

renumber-Run : (xs : List ℕ) (n : ℕ) → Run n (renumber xs n).1 (renumber xs n).0
unfolding renumber
renumber-Run [] n = stop (omega arith)
renumber-Run (a ∷ xs) n = next n (omega arith) (renumber-Run xs (suc n))

copy_object-IsDeep : {V : Type 0} → IsDeep (foreign {V = V}) copy_object
unfolding copy_object
copy_object-IsDeep = record { keeps = λ t n. refl; fresh = λ t n. renumber-Run t.held n }

abbrev library : Copies
library = record {
  affinity = copy_object;
  topology_spread_constraint = copy_object;
  resources = copy_object;
  toleration = copy_object;
  env_var = copy_object;
  security_context = copy_object;
  container = copy_object;
  volume = copy_object;
  volume_mount = copy_object;
  claim_spec = copy_object;
  empty_dir = copy_object;
  object_meta = copy_object;
  list_meta = copy_object;
}

library-AreDeep : AreDeep library
library-AreDeep = record {
  affinity = copy_object-IsDeep;
  topology_spread_constraint = copy_object-IsDeep;
  resources = copy_object-IsDeep;
  toleration = copy_object-IsDeep;
  env_var = copy_object-IsDeep;
  security_context = copy_object-IsDeep;
  container = copy_object-IsDeep;
  volume = copy_object-IsDeep;
  volume_mount = copy_object-IsDeep;
  claim_spec = copy_object-IsDeep;
  empty_dir = copy_object-IsDeep;
  object_meta = copy_object-IsDeep;
  list_meta = copy_object-IsDeep;
}

deep_copy_cluster-IsDeep_example :
    IsDeep (pointer cluster_form) (deep_copy_cluster library)
    × IsDeep (pointer list_form) (deep_copy_list library)
deep_copy_cluster-IsDeep_example = deep_copy_cluster-IsDeep library library-AreDeep

-- a status whose lists stand at the three addresses from `n` on
abbrev placed : ℕ → ZookeeperClusterStatus → ZookeeperClusterStatusMemory
placed n status = record {
  members = record {
    ready = some (record { at = n; content = status.members.ready });
    unready = some (record { at = n + 1; content = status.members.unready });
  };
  replicas = status.replicas;
  ready_replicas = status.ready_replicas;
  internal_client_endpoint = status.internal_client_endpoint;
  external_client_endpoint = status.external_client_endpoint;
  meta_root_created = status.meta_root_created;
  current_version = status.current_version;
  target_version = status.target_version;
  conditions = some (record { at = n + 2; content = status.conditions });
}

-- writes that empty every list below the address 10
abbrev emptied : {A : Type 0} → Writes (List A)
emptied a = if ltb a 10 then some [] else none

emptied-Spare : {A : Type 0} → Spare 10 14 (emptied {A = A})
emptied-Spare a low high = ground arith

abbrev operator : Reconciler ℕ
operator =
    reconciler (client (ok cluster) (err (not_found "")) (err (not_found "")) (ok []))
      (ensemble true)

-- an upgrade without a target
abbrev start : State ℕ
start = record {
  instance = record cluster {
    status = record cluster.status {
      members = record { ready = "zk-0" ∷ []; unready = [] };
      target_version = "0.2.16";
      conditions = condition_of "Upgrading" "False" ∷ [];
    };
  };
  world = 0;
}

-- this cluster, with its lists at the addresses 1 to 3
abbrev given : ClusterMemory
given = record {
  rest = cluster;
  status = record { at = 0; content = placed 1 start.instance.status };
}

-- An Update that empties all lists of the cluster it is given, and answers with a cluster whose lists
-- stand elsewhere.
abbrev overwrite : Update ℕ
overwrite z w = (
  ok (record {
    instance = record {
      rest = z.rest;
      status = record { at = 20; content = placed 21 (status_form.value z.status.content) };
    };
    texts = emptied;
    conditions = emptied;
  }),
  suc w,
)

given-value : value_of given ≡ start.instance
unfolding status_form members_form
given-value = refl

clear_in_memory-reads_example :
    read_outcome (clear_in_memory overwrite "now" given 10 0) ≡ clear_upgrade_status operator start
unfolding status_form members_form deep_copy_status deep_copy_into_status deep_copy_into_members
    clear_status
clear_in_memory-reads_example =
    clear_in_memory-reads operator overwrite start given 10 given-value refl
      (emptied-Spare, emptied-Spare)

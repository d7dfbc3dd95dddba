-- ===== src/Scenarios/Locks.antt =====
-- A run of the check of the leader's lock.
use zookeeper_operator.Prelude.{
  ℕ, String, str_eq, none, some, [], ◌∷◌, suc, ◌≡◌, refl, if◌then◌else◌,
}
use zookeeper_operator.Kube.Meta.{OwnerReference, no_meta}
use zookeeper_operator.Kube.Pods.{Pod}
use zookeeper_operator.Kube.Objects.{ConfigMap}
use zookeeper_operator.Controller.Interfaces.{not_found, ok, err}
use zookeeper_operator.Utils.Leader.{LockClient, precheck_leader_lock, become_leader}
use zookeeper_operator.Utils.Leader.Failed.{become_leader_clears}
use zookeeper_operator.Utils.Leader.Harmless.{precheck_leader_lock_keeps}

abbrev owner : String → String → OwnerReference
owner kind name = record { kind = kind; name = name; uid = "" }

-- owned by a node, by a pod that is gone, and by the current pod
abbrev lock : ConfigMap
lock = record {
  type_meta = record { kind = "ConfigMap"; api_version = "v1" };
  meta = record no_meta {
    owner_references = owner "Node" "n" ∷ owner "Pod" "gone" ∷ owner "Pod" "me" ∷ [];
  };
  contents = [];
  binary_data = none;
}

abbrev failed_pod : Pod
failed_pod = record { meta = no_meta; containers_ready = []; reason = "ProviderFailed" }

abbrev pub client : LockClient ℕ
client = record {
  get_config_map = λ ns name w. ok lock;
  get_pod = λ ns name w. if str_eq name "gone" then err (not_found "gone") else ok failed_pod;
  delete_pod = λ pod w. (ok tt, suc w);
  delete_config_map = λ m w. (ok tt, suc w);
  become = λ name w. (some (ok tt), w);
}

precheck_leader_lock_keeps_example : (precheck_leader_lock client "me" "lock" "ns" 5).1 ≡ 5
precheck_leader_lock_keeps_example = precheck_leader_lock_keeps client "me" "ns" 5 "lock" refl

-- owned by a failed pod
abbrev stale_lock : ConfigMap
stale_lock = record lock { meta = record no_meta { owner_references = owner "Pod" "old" ∷ [] } }

become_leader_clears_example :
    become_leader (record client { get_config_map = λ ns name w. ok stale_lock }) "me" "lock" "ns" 5
    ≡ (some (ok tt), 7)
become_leader_clears_example =
    become_leader_clears (record client { get_config_map = λ ns name w. ok stale_lock }) "me" "lock"
      "ns" 5 stale_lock (owner "Pod" "old") failed_pod refl refl refl refl refl refl refl

-- ===== src/Utils/Leader.antt =====
-- pkg/utils/leader.go: the check of the leader's lock before the election. The client, the environment
-- variable POD_NAME and leader.Become of the operator library are parameters.
pub mod Harmless
pub mod Failed
use zookeeper_operator.Prelude.{
  String, str_eq, Bool, true, false, not, Option, none, some, List, [], ◌∷◌, if◌then◌else◌,
}
use zookeeper_operator.Kube.Meta.{OwnerReference}
use zookeeper_operator.Kube.Pods.{Pod}
use zookeeper_operator.Kube.Objects.{ConfigMap}
use zookeeper_operator.Controller.Interfaces.{Error, not_found, failure, Result, ok, err, go_on}

-- `become` waits for as long as another pod that lives owns the lock. Its answer is `none` where that
-- wait comes to no end.
pub record LockClient (W : Type 0) : Type 0 where
  pub get_config_map : String → String → W → Result ConfigMap
  pub get_pod : String → String → W → Result Pod
  pub delete_pod : Pod → W → Result (Unit {0}) × W
  pub delete_config_map : ConfigMap → W → Result (Unit {0}) × W
  pub become : String → W → Option (Result (Unit {0})) × W

module _ {W : Type 0} (client : LockClient W) (pod_name : String) where
  -- the switch on the error of the second Delete
  lock_deleted : Result (Unit {0}) × W → Result (Unit {0}) × W
  lock_deleted (err (not_found t), w) = (ok tt, w)
  lock_deleted (err e, w) = (err e, w)
  lock_deleted (ok u, w) = (ok tt, w)

  pod_deleted : ConfigMap → Result (Unit {0}) × W → Result (Unit {0}) × W
  unfolding lock_deleted
  pod_deleted lock (err e, w) = (err e, w)
  pod_deleted lock (ok u, w) = lock_deleted (client.delete_config_map lock w)

  delete_leader : Pod → ConfigMap → W → Result (Unit {0}) × W
  unfolding pod_deleted
  delete_leader pod lock w = pod_deleted lock (client.delete_pod pod w)

  -- the branches on the Get of the leader's pod
  checkup_pod : Result Pod → ConfigMap → W → Result (Unit {0}) × W
  unfolding delete_leader
  checkup_pod (err (not_found t)) lock w = (ok tt, w)
  checkup_pod (err e) lock w = (err e, w)
  checkup_pod (ok pod) lock w =
      if str_eq pod.reason "ProviderFailed" then delete_leader pod lock w else (ok tt, w)

  checkup_leader_pod_status : OwnerReference → ConfigMap → String → W → Result (Unit {0}) × W
  unfolding checkup_pod
  checkup_leader_pod_status owner lock ns w =
      if not (str_eq owner.kind "Pod")
      then (ok tt, w)
      else checkup_pod (client.get_pod ns owner.name w) lock w

  -- the loop over the owners of the lock
  check_owners : List OwnerReference → ConfigMap → String → W → Result (Unit {0}) × W
  unfolding checkup_leader_pod_status
  check_owners [] lock ns w = (ok tt, w)
  check_owners (owner ∷ owners) lock ns w =
      let rest = check_owners owners lock ns in
      if str_eq owner.name pod_name
      then (ok tt, w)
      else go_on (checkup_leader_pod_status owner lock ns w) rest

  -- the branches on the Get of the lock
  lock_of : Result ConfigMap → Result (Option ConfigMap)
  lock_of (err (not_found t)) = ok none
  lock_of (err e) = err e
  lock_of (ok lock) = ok (some lock)

  get_config_map_with_lock : String → String → W → Result (Option ConfigMap)
  unfolding lock_of
  get_config_map_with_lock lock_name ns w = lock_of (client.get_config_map ns lock_name w)

  check_lock : Result (Option ConfigMap) → String → W → Result (Unit {0}) × W
  unfolding check_owners
  check_lock (err e) ns w = (err e, w)
  check_lock (ok none) ns w = (ok tt, w)
  check_lock (ok (some lock)) ns w =
      if str_eq pod_name ""
      then (err (failure "required env POD_NAME not set"), w)
      else check_owners lock.meta.owner_references lock ns w

  unfoldable pub precheck_leader_lock : String → String → W → Result (Unit {0}) × W
  unfolding check_lock get_config_map_with_lock
  precheck_leader_lock lock_name ns w = check_lock (get_config_map_with_lock lock_name ns w) ns w

  -- The error of the check is logged and dropped.
  unfoldable pub become_leader : String → String → W → Option (Result (Unit {0})) × W
  become_leader lock_name ns w =
      let (answer, w') = precheck_leader_lock lock_name ns w in client.become lock_name w'

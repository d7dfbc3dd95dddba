-- ===== src/Utils/Leader/Failed.antt =====
-- The check of the leader's lock where the leader's pod has failed.
use zookeeper_operator.Prelude.{
  String, str_eq, true, false, some, List, [], ◌∷◌, ◌≡◌, refl, ◌∙◌, ap,
}
use zookeeper_operator.Kube.Meta.{OwnerReference}
use zookeeper_operator.Kube.Pods.{Pod}
use zookeeper_operator.Kube.Objects.{ConfigMap}
use zookeeper_operator.Controller.Interfaces.{not_found, failure, panic, Result, ok, err, go_on}
use zookeeper_operator.Utils.Leader.{
  LockClient, lock_deleted, pod_deleted, delete_leader, checkup_pod, checkup_leader_pod_status,
  check_owners, lock_of, get_config_map_with_lock, check_lock, precheck_leader_lock, become_leader,
}

module _ {W : Type 0} (client : LockClient W) (pod_name : String) where
  -- the world after the two deletions; the lock is left where its pod could not be deleted
  abbrev pub cleared : ConfigMap → Result (Unit {0}) × W → W
  cleared lock (ok u, w) = (client.delete_config_map lock w).1
  cleared lock (err e, w) = w

  lock_deleted_keeps : (r : Result (Unit {0}) × W) → (lock_deleted client pod_name r).1 ≡ r.1
  unfolding lock_deleted
  lock_deleted_keeps (ok u, w) = refl
  lock_deleted_keeps (err (not_found t), w) = refl
  lock_deleted_keeps (err (failure t), w) = refl
  lock_deleted_keeps (err panic, w) = refl

  pod_deleted_clears :
      (lock : ConfigMap) (r : Result (Unit {0}) × W)
      → (pod_deleted client pod_name lock r).1 ≡ cleared lock r
  unfolding pod_deleted
  pod_deleted_clears lock (ok u, w) = lock_deleted_keeps (client.delete_config_map lock w)
  pod_deleted_clears lock (err e, w) = refl

  go_on_done : (r : Result (Unit {0}) × W) → (go_on r (λ v. (ok tt, v))).1 ≡ r.1
  go_on_done (ok u, w) = refl
  go_on_done (err e, w) = refl

  check_owners_clears :
      (owner : OwnerReference) (pod : Pod) (lock : ConfigMap) (ns : String) (w : W)
      → str_eq owner.name pod_name ≡ false
      → str_eq owner.kind "Pod" ≡ true
      → client.get_pod ns owner.name w ≡ ok pod
      → str_eq pod.reason "ProviderFailed" ≡ true
      → (check_owners client pod_name (owner ∷ []) lock ns w).1
        ≡ cleared lock (client.delete_pod pod w)
  unfolding check_owners checkup_leader_pod_status checkup_pod delete_leader
  check_owners_clears owner pod lock ns w other kind read failed =
      rw (other, kind, read, failed)
        (go_on_done (pod_deleted client pod_name lock (client.delete_pod pod w))
          ∙ pod_deleted_clears lock (client.delete_pod pod w))

  check_lock_clears :
      (lock : ConfigMap) (owners : List OwnerReference) (ns : String) (w : W)
      → str_eq pod_name "" ≡ false
      → lock.meta.owner_references ≡ owners
      → check_lock client pod_name (ok (some lock)) ns w
        ≡ check_owners client pod_name owners lock ns w
  unfolding check_lock
  check_lock_clears lock owners ns w named e =
      rw named (ap (λ os. check_owners client pod_name os lock ns w) e)

  -- Where the operator knows its own pod's name, and the lock is read and owned by one other pod, which
  -- is found with the reason ProviderFailed: BecomeLeader deletes that pod and then, if this worked,
  -- the lock, and enters the election, whatever the two deletions answered.
  pub become_leader_clears :
      (lock_name ns : String) (w : W) (lock : ConfigMap) (owner : OwnerReference) (pod : Pod)
      → str_eq pod_name "" ≡ false
      → client.get_config_map ns lock_name w ≡ ok lock
      → lock.meta.owner_references ≡ owner ∷ []
      → str_eq owner.name pod_name ≡ false
      → str_eq owner.kind "Pod" ≡ true
      → client.get_pod ns owner.name w ≡ ok pod
      → str_eq pod.reason "ProviderFailed" ≡ true
      → become_leader client pod_name lock_name ns w
        ≡ client.become lock_name (cleared lock (client.delete_pod pod w))
  unfolding become_leader precheck_leader_lock get_config_map_with_lock lock_of
  become_leader_clears lock_name ns w lock owner pod named found owners other kind read failed =
      rw
        (
          become_leader,
          precheck_leader_lock,
          get_config_map_with_lock,
          found,
          check_lock_clears lock (owner ∷ []) ns w named owners,
        )
        (ap (client.become lock_name)
          (check_owners_clears owner pod lock ns w other kind read failed))

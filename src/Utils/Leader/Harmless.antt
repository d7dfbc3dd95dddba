-- ===== src/Utils/Leader/Harmless.antt =====
-- The check of the leader's lock where no owner of the lock has failed.
use zookeeper_operator.Prelude.{
  String, str_eq, Bool, false, ◌&&◌, ◌||◌, List, [], ◌∷◌, ◌≡◌, refl, ap, ◌∙◌, Bool-cases, inl, inr,
  or_false, if◌then◌else◌,
}
use zookeeper_operator.Kube.Meta.{OwnerReference}
use zookeeper_operator.Kube.Pods.{Pod}
use zookeeper_operator.Kube.Objects.{ConfigMap}
use zookeeper_operator.Controller.Interfaces.{not_found, failure, panic, Result, ok, err, go_on}
use zookeeper_operator.Utils.Leader.{
  LockClient, checkup_pod, checkup_leader_pod_status, check_owners, lock_of,
  get_config_map_with_lock, check_lock, precheck_leader_lock,
}

-- a pod that was read, with the reason that marks a failed provider
abbrev pub is_failed_pod : Result Pod → Bool
is_failed_pod (err e) = false
is_failed_pod (ok pod) = str_eq pod.reason "ProviderFailed"

module _ {W : Type 0} (client : LockClient W) (pod_name ns : String) (w : W) where
  -- an owner in front of the current pod whose pod has failed
  abbrev pub has_failed_owner : List OwnerReference → Bool
  has_failed_owner [] = false
  has_failed_owner (owner ∷ owners) =
      if str_eq owner.name pod_name
      then false
      else str_eq owner.kind "Pod" && is_failed_pod (client.get_pod ns owner.name w)
        || has_failed_owner owners

  checkup_pod_keeps :
      (pod : Result Pod) (lock : ConfigMap)
      → is_failed_pod pod ≡ false
      → (checkup_pod client pod_name pod lock w).1 ≡ w
  unfolding checkup_pod
  checkup_pod_keeps (err (not_found t)) lock h = refl
  checkup_pod_keeps (err (failure t)) lock h = refl
  checkup_pod_keeps (err panic) lock h = refl
  checkup_pod_keeps (ok pod) lock h = rw h

  checkup_keeps :
      (owner : OwnerReference) (lock : ConfigMap)
      → (str_eq owner.kind "Pod" && is_failed_pod (client.get_pod ns owner.name w)) ≡ false
      → (checkup_leader_pod_status client pod_name owner lock ns w).1 ≡ w
  unfolding checkup_leader_pod_status
  checkup_keeps owner lock h = elim (Bool-cases (str_eq owner.kind "Pod")) [
    | inl e ↦ rw e (checkup_pod_keeps (client.get_pod ns owner.name w) lock (rw e at h))
    | inr e ↦ rw e
  ]

  go_on_keeps :
      (p : Result (Unit {0}) × W) (rest : W → Result (Unit {0}) × W)
      → p.1 ≡ w
      → (rest w).1 ≡ w
      → (go_on p rest).1 ≡ w
  go_on_keeps (ok u, v) rest e h = ap (λ x. (rest x).1) e ∙ h
  go_on_keeps (err x, v) rest e h = e

  check_owners_keeps :
      (owners : List OwnerReference) (lock : ConfigMap)
      → has_failed_owner owners ≡ false
      → (check_owners client pod_name owners lock ns w).1 ≡ w
  unfolding check_owners
  check_owners_keeps [] lock h = refl
  check_owners_keeps (owner ∷ owners) lock h = elim (Bool-cases (str_eq owner.name pod_name)) [
    | inl e ↦ rw e
    | inr e ↦
        let (sound, others) =
          or_false (str_eq owner.kind "Pod" && is_failed_pod (client.get_pod ns owner.name w))
            (has_failed_owner owners) (rw e at h) in
        rw e (
          go_on_keeps (checkup_leader_pod_status client pod_name owner lock ns w)
            (check_owners client pod_name owners lock ns) (checkup_keeps owner lock sound)
            (check_owners_keeps owners lock others))
  ]

  -- a lock that was read, with such an owner
  abbrev pub has_failed_lock : Result ConfigMap → Bool
  has_failed_lock (err e) = false
  has_failed_lock (ok lock) = has_failed_owner lock.meta.owner_references

  check_lock_keeps :
      (found : Result ConfigMap)
      → has_failed_lock found ≡ false
      → (check_lock client pod_name (lock_of client pod_name found) ns w).1 ≡ w
  unfolding check_lock lock_of
  check_lock_keeps (err (not_found t)) h = refl
  check_lock_keeps (err (failure t)) h = refl
  check_lock_keeps (err panic) h = refl
  check_lock_keeps (ok lock) h = elim (Bool-cases (str_eq pod_name "")) [
    | inl e ↦ rw e
    | inr e ↦ rw e (check_owners_keeps lock.meta.owner_references lock h)
  ]

  -- Unless the lock is read and an owner that it lists in front of the current pod is a pod that is
  -- found with the reason ProviderFailed: the check of the lock deletes nothing, whether it fails or
  -- not.
  pub precheck_leader_lock_keeps :
      (lock_name : String)
      → has_failed_lock (client.get_config_map ns lock_name w) ≡ false
      → (precheck_leader_lock client pod_name lock_name ns w).1 ≡ w
  unfolding precheck_leader_lock get_config_map_with_lock
  precheck_leader_lock_keeps lock_name h = check_lock_keeps (client.get_config_map ns lock_name w) h

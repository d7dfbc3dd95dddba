-- ===== src/Controller/StatefulSets.antt =====
-- reconcileStatefulSet and updateStatefulSet.
pub mod Whole
pub mod Resize
pub mod Keeps
use zookeeper_operator.Prelude.{
  ℤ, pos, eq_ℤ, String, str_eq, ◌&◌, Bool, true, false, ◌&&◌, not, Option, none, some,
  if◌then◌else◌,
}
use zookeeper_operator.Prelude.Dict.{Dict, get, put, entries}
use zookeeper_operator.Std.Strconv.{itoa}
use zookeeper_operator.Kube.Meta.{ObjectMeta}
use zookeeper_operator.Kube.Objects.{StatefulSet, ServiceAccount}
use zookeeper_operator.Api.Types.{ZookeeperCluster}
use zookeeper_operator.Api.Status.{
  ZookeeperClusterStatus, is_cluster_in_upgrade_failed_state, set_error_condition_false,
}
use zookeeper_operator.Utils.Zookeeper.{get_zk_service_uri, get_meta_path}
use zookeeper_operator.Zk.Services.{make_service_account}
use zookeeper_operator.Zk.Sync.{sync_stateful_set}
use zookeeper_operator.Zk.Workloads.{make_stateful_set}
use zookeeper_operator.Controller.Interfaces.{
  Error, not_found, failure, panic, describe, Result, ok, err, Reconciler,
}
use zookeeper_operator.Controller.Op.{
  State, Op, ◌>>=◌, ◌>>◌, pure, raise, gets, call, ignoring, lift, deref, deferring, modify,
  modify_status,
}
use zookeeper_operator.Controller.Version.{
  Comparison, less, equal, greater, compare_resource_version,
}
use zookeeper_operator.Controller.Upgrade.{read_clock, clear_upgrade_status, upgrade_stateful_set}

-- fmt.Sprintf("CLUSTER_SIZE=%d", *sts.Spec.Replicas)
abbrev pub size_data : ℤ → String
size_data size = "CLUSTER_SIZE=" & itoa size

module _ {W : Type 0} (r : Reconciler W) where
  -- MakeStatefulSet and SetControllerReference
  unfoldable pub wanted_stateful_set : Op W StatefulSet
  wanted_stateful_set = do
    instance ← gets (λ s. s.instance)
    sts ← deref (make_stateful_set instance)
    meta ← lift (r.set_controller_reference instance.meta sts.meta)
    pure (record sts { meta = meta })

  abbrev pub find_stateful_set : StatefulSet → Op W (Result StatefulSet)
  find_stateful_set sts =
      gets (λ s. r.client.stateful_sets.get sts.meta.namespace sts.meta.name s.world)

  -- the status when the failed upgrade turns out to have rolled out
  recovered : String → ZookeeperClusterStatus → ZookeeperClusterStatus
  recovered now status =
      set_error_condition_false now (record status { current_version = status.target_version })

  -- the result tells whether reconcileStatefulSet returns here
  recover_found : Result StatefulSet → Op W Bool
  unfolding recovered
  recover_found (err e) = pure false
  recover_found (ok found) = do
    stored ← call (r.client.stateful_sets.update found)
    if eq_ℤ stored.status.replicas stored.status.ready_replicas
          && str_eq stored.status.current_revision stored.status.update_revision
        then (do
          now ← read_clock r
          modify_status (recovered now)
          clear_upgrade_status r
          pure true)
        else pure false

  -- the block under `we cannot upgrade if cluster is in UpgradeFailed`
  pub recover_upgrade : Op W Bool
  unfolding recover_found
  recover_upgrade = do sts ← wanted_stateful_set; found ← find_stateful_set sts; recover_found found

  store_service_account : ServiceAccount → Result ServiceAccount → Op W (Unit {0})
  store_service_account account (err (not_found t)) = do
    stored ← call (r.client.service_accounts.create account)
    pure tt
  store_service_account account (err e) = raise e
  store_service_account account (ok found) = do
    stored ← call (
        r.client.service_accounts.update
          (record found { image_pull_secrets = account.image_pull_secrets }))
    pure tt

  -- the block on a service account other than `default`
  unfoldable pub reconcile_service_account : Op W (Unit {0})
  unfolding store_service_account
  reconcile_service_account = do
    instance ← gets (λ s. s.instance)
    if str_eq instance.spec.pod.service_account_name "default" then pure tt else (do
      let account = make_service_account instance
      meta ← lift (r.set_controller_reference instance.meta account.meta)
      found ← gets (λ s. r.client.service_accounts.get meta.namespace meta.name s.world)
      store_service_account (record account { meta = meta }) found)

  -- updateStatefulSet, which leaves the server's version in `foundSts`
  pub update_stateful_set : StatefulSet → StatefulSet → Op W StatefulSet
  update_stateful_set found sts = do
    stored ← call (r.client.stateful_sets.update (sync_stateful_set found sts))
    modify_status (λ status. record status {
      replicas = stored.status.replicas;
      ready_replicas = stored.status.ready_replicas;
    })
    pure stored

  -- the end of the branch on a StatefulSet that exists
  pub update_and_upgrade : StatefulSet → StatefulSet → Op W (Unit {0})
  update_and_upgrade found sts = do
    stored ← update_stateful_set found sts
    upgrade_stateful_set r stored

  -- a call of the ensemble's client whose error fmt.Errorf wraps
  wrap : {A : Type 0} → (String → String) → Result A → Result A
  wrap text (ok a) = ok a
  wrap text (err e) = err (failure (text (describe e)))

  abbrev call_wrapped : {A : Type 0} → (String → String) → (W → Result A × W) → Op W A
  call_wrapped text m = call (λ w. let (answer, w') = m w in (wrap text answer, w'))

  -- The error of UpdateNode is not looked at.
  store_size : StatefulSet → StatefulSet → ℤ → Op W (Unit {0})
  unfolding wrap
  store_size found sts size = do
    path ← gets (λ s. get_meta_path s.instance)
    version ←
        call_wrapped (λ t. "Error doing exists check for znode " & path & ": " & t)
          (r.zk_client.node_exists path)
    ignoring (r.zk_client.update_node path (size_data size) version)
    update_and_upgrade found sts

  -- the block on a new number of replicas, with all that runs before its deferred Close
  resize : StatefulSet → StatefulSet → ℤ → Op W (Unit {0})
  unfolding wrap store_size
  resize found sts size = do
    uri ← gets (λ s. get_zk_service_uri s.instance)
    call_wrapped (λ t. "Error storing cluster size " & t) (r.zk_client.connect uri)
    deferring r.zk_client.close (store_size found sts size)

  -- the block from the comparison of the sizes on
  pub apply_size : StatefulSet → StatefulSet → Op W (Unit {0})
  unfolding resize update_and_upgrade
  apply_size found sts = do
    found_size ← deref found.spec.replicas
    new_size ← deref sts.spec.replicas
    if eq_ℤ new_size found_size then update_and_upgrade found sts else resize found sts new_size

-- ===== src/Controller/Upgrade.antt =====
-- upgradeStatefulSet, clearUpgradeStatus and checkSyncTimeout: the upgrade of a running ensemble.
pub mod InMemory
pub mod Keeps
pub mod Steps
pub mod Machine
pub mod Progress
pub mod Traces
use zookeeper_operator.Prelude.{
  ℕ, ℤ, String, str_eq, Bool, true, false, ◌&&◌, not, Option, none, some, if◌then◌else◌,
}
use zookeeper_operator.Std.Strconv.{itoa}
use zookeeper_operator.Kube.Objects.{StatefulSet, StatefulSetStatus}
use zookeeper_operator.Api.Types.{ZookeeperCluster}
use zookeeper_operator.Api.Status.{
  ClusterCondition, ZookeeperClusterStatus, condition, upgrading, condition_true, condition_false,
  updating_zookeeper_reason, set_pods_ready_condition_false, set_upgrading_condition_true,
  set_upgrading_condition_false, set_error_condition_true, is_cluster_in_ready_state,
  update_progress, get_last_condition,
}
use zookeeper_operator.Controller.Interfaces.{Error, failure, Result, ok, err, Reconciler}
use zookeeper_operator.Controller.Op.{
  State, Op, ◌>>=◌, ◌>>◌, pure, raise, gets, call, modify, modify_status,
}

module _ {W : Type 0} (r : Reconciler W) where
  -- r.Client.Status().Update(instance): the instance becomes what the server returns
  pub update_instance_status : Op W (Unit {0})
  update_instance_status = do
    instance ← gets (λ s. s.instance)
    stored ← call (r.client.update_status instance)
    modify (λ _. stored)

  -- the present, as the setters of the conditions read it
  unfoldable pub read_clock : Op W String
  read_clock = gets (λ s. r.clock.now s.world)

  -- the status that clearUpgradeStatus leaves
  pub cleared : String → ZookeeperClusterStatus → ZookeeperClusterStatus
  cleared now status = record (set_upgrading_condition_false now status) { target_version = "" }

  -- The server's answer to Update brings its own status, so the one in memory is put back.
  pub clear_upgrade_status : Op W (Unit {0})
  unfolding cleared read_clock
  clear_upgrade_status = do
    now ← read_clock
    modify_status (cleared now)
    instance ← gets (λ s. s.instance)
    stored ← call (r.client.clusters.update instance)
    modify (λ _. record stored { status = instance.status })

  -- the lines on a last condition with the reason and the message of the last reconciliation
  deadline_exceeded : String → ℤ → ℕ → Option ClusterCondition → W → Bool
  deadline_exceeded reason updated_replicas t none w = false
  deadline_exceeded reason updated_replicas t (some c) w =
      str_eq c.reason reason
      && str_eq c.message (itoa updated_replicas)
      && r.clock.is_past c.last_update_time t w

  -- whether checkSyncTimeout returns its error, "progress deadline exceeded"; `t` in seconds
  unfoldable pub check_sync_timeout : ZookeeperCluster → String → ℤ → ℕ → W → Bool
  unfolding deadline_exceeded
  check_sync_timeout z reason updated_replicas t w =
      deadline_exceeded reason updated_replicas t (get_last_condition z.status) w

  -- the block under `Setting the upgrade condition to true`: the status that it leaves
  pub start_upgrade : String → ZookeeperCluster → StatefulSetStatus → ZookeeperClusterStatus
  start_upgrade now z found =
      if is_cluster_in_ready_state z.status
        && not (str_eq found.current_revision found.update_revision)
        && not (str_eq z.spec.image.tag z.status.current_version)
      then set_upgrading_condition_true now "" "" (
          set_pods_ready_condition_false now
            (record z.status { target_version = z.spec.image.tag }))
      else z.status

  -- the end of the upgrade
  complete_upgrade : Op W (Unit {0})
  complete_upgrade = do
    modify_status (λ status. record status { current_version = status.target_version })
    clear_upgrade_status

  time_out : Op W (Unit {0})
  time_out = do
    now ← read_clock
    modify_status (set_error_condition_true now "UpgradeFailed" "progress deadline exceeded")
    update_instance_status

  note_progress : String → Op W (Unit {0})
  note_progress updated_replicas = do
    now ← read_clock
    modify_status (update_progress now updating_zookeeper_reason updated_replicas)
    update_instance_status

  -- fmt.Sprint(foundSts.Status.UpdatedReplicas) against the condition's message
  follow_upgrade : ClusterCondition → StatefulSetStatus → Op W (Unit {0})
  unfolding time_out note_progress
  follow_upgrade c found =
      if not (str_eq (itoa found.updated_replicas) c.message)
      then note_progress (itoa found.updated_replicas)
      else do
        late ← gets (λ s.
            check_sync_timeout s.instance updating_zookeeper_reason found.updated_replicas 600
              s.world)
        if late then time_out else pure tt

  -- the block under `checking if the upgrade is in progress`
  pub continue_upgrade : ClusterCondition → StatefulSetStatus → Op W (Unit {0})
  unfolding complete_upgrade follow_upgrade
  continue_upgrade c found = do
    target ← gets (λ s. s.instance.status.target_version)
    if str_eq target ""
        then clear_upgrade_status
        else if str_eq found.current_revision found.update_revision
        then complete_upgrade
        else follow_upgrade c found

  -- `c` is a copy that GetClusterCondition made: an upgrade that starts here is not seen by the test
  -- for an upgrade in progress before the next reconciliation.
  upgrade_by : Option ClusterCondition → StatefulSetStatus → Op W (Unit {0})
  unfolding start_upgrade continue_upgrade
  upgrade_by none found = do now ← read_clock; modify_status (set_upgrading_condition_false now)
  upgrade_by (some c) found =
      if str_eq c.status condition_true then continue_upgrade c found else do
        now ← read_clock
        if str_eq c.status condition_false
            then modify (λ z. record z { status = start_upgrade now z found })
            else pure tt
        update_instance_status

  pub upgrade_stateful_set : StatefulSet → Op W (Unit {0})
  unfolding upgrade_by
  upgrade_stateful_set found = do
    c ← gets (λ s. condition s.instance.status upgrading)
    upgrade_by c found.status

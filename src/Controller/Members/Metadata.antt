-- ===== src/Controller/Members/Metadata.antt =====
-- reconcileClusterStatus where the ensemble refuses the metadata node.
use zookeeper_operator.Prelude.{eq_ℤ, String, ◌&◌, true, false, ◌&&◌, not, List, [], ◌∷◌, ◌≡◌, ap}
use zookeeper_operator.Kube.Pods.{Pod}
use zookeeper_operator.Api.Types.{ZookeeperCluster}
use zookeeper_operator.Api.Status.{
  init, is_cluster_in_upgrade_failed_state, is_cluster_in_upgrading_state,
}
use zookeeper_operator.Api.Status.Init.{init_counts}
use zookeeper_operator.Utils.Zookeeper.{get_zk_service_uri, get_meta_path}
use zookeeper_operator.Controller.Interfaces.{Error, failure, describe, ok, err, Reconciler}
use zookeeper_operator.Controller.Op.{State}
use zookeeper_operator.Controller.Upgrade.{read_clock}
use zookeeper_operator.Controller.Members.{
  members_of, wrap, create_metadata, announce, observe_members, reconcile_cluster_status,
}

-- the cluster with the conditions and the members noted, as it is when the test for the node is made
abbrev pub noted : String → List Pod → ZookeeperCluster → ZookeeperCluster
noted now pods z = record z { status = record (init now z.status) { members = members_of pods } }

pub pending_lem :
    (now : String) (z : ZookeeperCluster)
    → eq_ℤ z.spec.replicas z.status.ready_replicas ≡ true
    → z.status.meta_root_created ≡ false
    → (eq_ℤ z.spec.replicas (init now z.status).ready_replicas
        && not (init now z.status).meta_root_created)
      ≡ true
pending_lem now z all_ready unmarked =
    rw ((init_counts now z.status).0, (init_counts now z.status).1, all_ready, ap not unmarked)

-- Where no upgrade runs or has failed, the pods can be listed, all replicas are ready, the
-- metadata node is not marked as created, and the ensemble is reached but refuses the node: the
-- run fails with the wrapped error and has closed the connection; no status is sent to the
-- server, and in memory only the conditions' defaults and the members are noted.
pub reconcile_cluster_status_refused :
    {W : Type 0} (r : Reconciler W) (s : State W) (pods : List Pod) (e : Error) (w w' : W)
    → let z = s.instance in
      let noted_z = noted (r.clock.now s.world) pods z in
      is_cluster_in_upgrading_state z.status ≡ false
      → is_cluster_in_upgrade_failed_state z.status ≡ false
      → r.client.list_pods z.meta.namespace (("app", z.meta.name) ∷ []) s.world ≡ ok pods
      → eq_ℤ z.spec.replicas z.status.ready_replicas ≡ true
      → z.status.meta_root_created ≡ false
      → r.zk_client.connect (get_zk_service_uri noted_z) s.world ≡ (ok tt, w)
      → r.zk_client.create_node noted_z (get_meta_path noted_z) w ≡ (err e, w')
      → reconcile_cluster_status r s ≡ (
        err (
            failure (
              "Error creating cluster metadata path " & get_meta_path noted_z & ", " & describe e)),
        record { instance = noted_z; world = r.zk_client.close w' },
      )
unfolding reconcile_cluster_status observe_members announce create_metadata wrap read_clock
reconcile_cluster_status_refused r s pods e w w' steady sound listed all_ready unmarked reached
      refused =
    rw (
      steady,
      sound,
      listed,
      pending_lem (r.clock.now s.world) s.instance all_ready unmarked,
      reached,
      refused,
    )

-- ===== src/Controller/Members/Announced.antt =====
-- reconcileClusterStatus where it comes to create the metadata node.
use zookeeper_operator.Prelude.{eq_ℤ, String, true, false, List, [], ◌∷◌, ◌≡◌, refl}
use zookeeper_operator.Kube.Pods.{Pod}
use zookeeper_operator.Api.Types.{ZookeeperCluster}
use zookeeper_operator.Api.Status.{
  is_cluster_in_upgrade_failed_state, is_cluster_in_upgrading_state,
}
use zookeeper_operator.Controller.Upgrade.{read_clock}
use zookeeper_operator.Utils.Zookeeper.{get_zk_service_uri, get_meta_path}
use zookeeper_operator.Controller.Interfaces.{ok, Reconciler}
use zookeeper_operator.Controller.Op.{State}
use zookeeper_operator.Controller.Members.{
  store_status, create_metadata, wrap, announce, observe_members, reconcile_cluster_status,
}
use zookeeper_operator.Controller.Members.Metadata.{noted, pending_lem}

-- `announce` where the ensemble is reached and takes the node: the status is sent with the node marked
-- as created, and the connection is closed.
pub announce_lem :
    {W : Type 0} (r : Reconciler W) (s : State W) (w w' : W)
    → r.zk_client.connect (get_zk_service_uri s.instance) s.world ≡ (ok tt, w)
    → r.zk_client.create_node s.instance (get_meta_path s.instance) w ≡ (ok tt, w')
    → let (answer, t) = store_status r (record {
      instance = record s.instance {
        status = record s.instance.status { meta_root_created = true };
      };
      world = w';
    }) in
      announce r s ≡ (answer, record t { world = r.zk_client.close t.world })
unfolding announce create_metadata wrap
announce_lem r s w w' h k = rw (h, k)

pub reconcile_cluster_status_pending :
    {W : Type 0} (r : Reconciler W) (s : State W) (pods : List Pod)
    → is_cluster_in_upgrading_state s.instance.status ≡ false
    → is_cluster_in_upgrade_failed_state s.instance.status ≡ false
    → r.client.list_pods s.instance.meta.namespace (("app", s.instance.meta.name) ∷ []) s.world
      ≡ ok pods
    → eq_ℤ s.instance.spec.replicas s.instance.status.ready_replicas ≡ true
    → s.instance.status.meta_root_created ≡ false
    → reconcile_cluster_status r s
      ≡ announce r (record s { instance = noted (r.clock.now s.world) pods s.instance })
unfolding reconcile_cluster_status observe_members read_clock
reconcile_cluster_status_pending r s pods steady sound listed all_ready unmarked =
    rw (steady, sound, listed, pending_lem (r.clock.now s.world) s.instance all_ready unmarked)

pub noted_path :
    (now : String) (pods : List Pod) (z : ZookeeperCluster)
    → get_meta_path (noted now pods z) ≡ get_meta_path z
unfolding get_meta_path
noted_path now pods z = refl

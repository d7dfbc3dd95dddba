-- ===== src/Controller/Finalizers/Keeps.antt =====
-- Invariants over reconcileFinalizers.
use zookeeper_operator.Prelude.{ℤ, String, List, [], ◌∷◌}
use zookeeper_operator.Kube.Pods.{PersistentVolumeClaim}
use zookeeper_operator.Api.Status.{ZookeeperClusterStatus}
use zookeeper_operator.Controller.Interfaces.{Reconciler}
use zookeeper_operator.Controller.Interfaces.Guarded.{SparesClient, On}
use zookeeper_operator.Controller.Op.Keeps.{Keeps, Keeps-if, Keeps-then, Keeps-store, keeps_rules}
use zookeeper_operator.Controller.Finalizers.{
  delete_pvc, get_pvc_list, get_pvc_count, delete_orphans, delete_all, cleanup_orphan_pvcs,
  clean_up_all_pvcs, update_instance, guard_cluster, release_cluster, reconcile_finalizers,
}

module _ {W : Type 0} (r : Reconciler W) (J : String → ZookeeperClusterStatus → Type 0)
    (G : W → Type 0) (g : SparesClient r J G) where
  delete_pvc-Keeps : (item : PersistentVolumeClaim) → Keeps (On J) G (delete_pvc r item)
  unfolding delete_pvc
  delete_pvc-Keeps item = search (keeps_rules, g.deletes_pvc)

  get_pvc_list-Keeps : Keeps (On J) G (get_pvc_list r)
  unfolding get_pvc_list
  get_pvc_list-Keeps = search keeps_rules

  delete_orphans-Keeps :
      (replicas : ℤ) (items : List PersistentVolumeClaim)
      → Keeps (On J) G (delete_orphans r replicas items)
  unfolding delete_orphans
  delete_orphans-Keeps replicas [] = search keeps_rules
  delete_orphans-Keeps replicas (item ∷ items) =
      Keeps-if _ _ _ (Keeps-then _ _ (delete_pvc-Keeps item) (delete_orphans-Keeps replicas items))
        (delete_orphans-Keeps replicas items)

  delete_all-Keeps : (items : List PersistentVolumeClaim) → Keeps (On J) G (delete_all r items)
  unfolding delete_all
  delete_all-Keeps [] = search keeps_rules
  delete_all-Keeps (item ∷ items) =
      search (keeps_rules, delete_pvc-Keeps item, delete_all-Keeps items)

  cleanup_orphan_pvcs-Keeps : Keeps (On J) G (cleanup_orphan_pvcs r)
  unfolding cleanup_orphan_pvcs get_pvc_count
  cleanup_orphan_pvcs-Keeps =
      search (keeps_rules, get_pvc_list-Keeps, delete_orphans-Keeps) depth 10

  clean_up_all_pvcs-Keeps : Keeps (On J) G (clean_up_all_pvcs r)
  unfolding clean_up_all_pvcs
  clean_up_all_pvcs-Keeps = search (keeps_rules, get_pvc_list-Keeps, delete_all-Keeps)

  pub update_instance-Keeps : Keeps (On J) G (update_instance r)
  unfolding update_instance
  update_instance-Keeps =
      Keeps-store r.client.clusters.update (λ z w h k. (g.clusters.stores z w h k).leaves)
        (λ z w h k. (g.clusters.stores z w h k).stored)

  guard_cluster-Keeps : Keeps (On J) G (guard_cluster r)
  unfolding guard_cluster
  guard_cluster-Keeps = search (keeps_rules, update_instance-Keeps, cleanup_orphan_pvcs-Keeps)

  release_cluster-Keeps : Keeps (On J) G (release_cluster r)
  unfolding release_cluster
  release_cluster-Keeps = search (keeps_rules, update_instance-Keeps, clean_up_all_pvcs-Keeps)

  pub reconcile_finalizers-Keeps : Keeps (On J) G (reconcile_finalizers r)
  unfolding reconcile_finalizers
  reconcile_finalizers-Keeps = search (keeps_rules, guard_cluster-Keeps, release_cluster-Keeps)

-- ===== src/Controller/Finalizers.antt =====
-- reconcileFinalizers and the clean-up of the volume claims.
pub mod Claims
pub mod Keeps
pub mod Members
use zookeeper_operator.Prelude.{
  ℕ, suc, ℤ, pos, eq_ℤ, ltb_ℤ, int32, String, str_eq, Bool, true, false, ◌&&◌, not, Option, none,
  some, List, [], ◌∷◌, ◌++◌, if◌then◌else◌,
}
use zookeeper_operator.Kube.Pods.{PersistentVolumeClaim}
use zookeeper_operator.Api.Types.{Persistence, ZookeeperCluster}
use zookeeper_operator.Api.Defaults.{delete}
use zookeeper_operator.Utils.Finalizer.{zk_finalizer, contains_string, remove_string, is_pvc_orphan}
use zookeeper_operator.Controller.Interfaces.{Result, ok, err, Reconciler}
use zookeeper_operator.Controller.Op.{
  State, Op, ◌>>=◌, ◌>>◌, pure, gets, call, ignoring, lift, modify,
}

abbrev length : List PersistentVolumeClaim → ℕ
length [] = 0
length (x ∷ xs) = suc (length xs)

-- a volume whose claim the operator is told to keep
unfoldable pub keeps_volumes : Option Persistence → Bool
keeps_volumes none = false
keeps_volumes (some p) = not (str_eq p.volume_reclaim_policy delete)

unfoldable pub is_zero_time : Option String → Bool
is_zero_time none = true
is_zero_time (some t) = false

abbrev pub with_finalizers : List String → ZookeeperCluster → ZookeeperCluster
with_finalizers finalizers z = record z { meta = record z.meta { finalizers = finalizers } }

module _ {W : Type 0} (r : Reconciler W) where
  -- The error of Delete is logged and dropped.
  delete_pvc : PersistentVolumeClaim → Op W (Unit {0})
  delete_pvc item = ignoring (r.client.delete_pvc item.meta.namespace item.meta.name)

  get_pvc_list : Op W (List PersistentVolumeClaim)
  get_pvc_list = do
    answer ← gets (λ s.
        r.client.list_pvcs s.instance.meta.namespace
          (("app", s.instance.meta.name) ∷ ("uid", s.instance.meta.uid) ∷ []) s.world)
    lift answer

  -- getPVCCount: on an error the count is -1, which no caller reads
  get_pvc_count : Op W ℤ
  unfolding get_pvc_list
  get_pvc_count = do items ← get_pvc_list; pure (pos (length items))

  delete_orphans : ℤ → List PersistentVolumeClaim → Op W (Unit {0})
  unfolding delete_pvc
  delete_orphans replicas [] = pure tt
  delete_orphans replicas (item ∷ items) =
      let rest = delete_orphans replicas items in
      if is_pvc_orphan item.meta.name replicas then (do delete_pvc item; rest) else rest

  delete_all : List PersistentVolumeClaim → Op W (Unit {0})
  unfolding delete_pvc
  delete_all [] = pure tt
  delete_all (item ∷ items) = do delete_pvc item; delete_all items

  -- the claims are listed once for the count and once more for the clean-up
  unfoldable pub cleanup_orphan_pvcs : Op W (Unit {0})
  unfolding get_pvc_count delete_orphans
  cleanup_orphan_pvcs = do
    instance ← gets (λ s. s.instance)
    if not (eq_ℤ instance.status.ready_replicas instance.spec.replicas) then pure tt else (do
      count ← get_pvc_count
      if ltb_ℤ instance.spec.replicas count
          then (do items ← get_pvc_list; delete_orphans instance.spec.replicas items)
          else pure tt)

  pub clean_up_all_pvcs : Op W (Unit {0})
  unfolding get_pvc_list delete_all
  clean_up_all_pvcs = do items ← get_pvc_list; delete_all items

  -- r.Client.Update(instance): the instance becomes what the server returns
  pub update_instance : Op W (Unit {0})
  update_instance = do
    instance ← gets (λ s. s.instance)
    stored ← call (r.client.clusters.update instance)
    modify (λ _. stored)

  -- the branch on a cluster that is not being deleted
  guard_cluster : Op W (Unit {0})
  unfolding update_instance
  guard_cluster = do
    instance ← gets (λ s. s.instance)
    if not (contains_string instance.meta.finalizers zk_finalizer) && not r.disable_finalizer
        then (do
          modify (with_finalizers (instance.meta.finalizers ++ zk_finalizer ∷ []))
          update_instance)
        else pure tt
    cleanup_orphan_pvcs

  -- the branch on a cluster that is being deleted
  release_cluster : Op W (Unit {0})
  unfolding update_instance
  release_cluster = do
    instance ← gets (λ s. s.instance)
    if contains_string instance.meta.finalizers zk_finalizer
        then (do
          clean_up_all_pvcs
          modify (λ z. with_finalizers (remove_string z.meta.finalizers zk_finalizer) z)
          update_instance)
        else pure tt

  unfoldable pub reconcile_finalizers : Op W (Unit {0})
  unfolding keeps_volumes is_zero_time guard_cluster release_cluster
  reconcile_finalizers = do
    instance ← gets (λ s. s.instance)
    if keeps_volumes instance.spec.persistence
        then pure tt
        else if is_zero_time instance.meta.deletion_timestamp
        then guard_cluster
        else release_cluster

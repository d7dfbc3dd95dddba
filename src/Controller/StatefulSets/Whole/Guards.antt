-- ===== src/Controller/StatefulSets/Whole/Guards.antt =====
-- What reconcileStatefulSet does about a stale read of the cluster, and what a creation leaves.
use zookeeper_operator.Prelude.{String, str_eq, true, false, some, ◌≡◌, refl}
use zookeeper_operator.Prelude.Dict.{Dict, put}
use zookeeper_operator.Kube.Meta.{ObjectMeta}
use zookeeper_operator.Zk.Workloads.{make_stateful_set}
use zookeeper_operator.Kube.Objects.{StatefulSet}
use zookeeper_operator.Api.Status.{is_cluster_in_upgrade_failed_state}
use zookeeper_operator.Controller.Interfaces.{not_found, failure, Result, ok, err, Reconciler}
use zookeeper_operator.Controller.Op.{State}
use zookeeper_operator.Controller.Version.{less, compare_resource_version}
use zookeeper_operator.Controller.StatefulSets.{wanted_stateful_set, reconcile_service_account}
use zookeeper_operator.Controller.StatefulSets.Whole.{
  with_labels, staleness, gate, create_stateful_set, store_stateful_set, reconcile_running,
  unless_failed, reconcile_stateful_set,
}

module _ {W : Type 0} (r : Reconciler W) (s : State W) (sts : StatefulSet) (meta : ObjectMeta) where
  -- up to the Get of the StatefulSet
  reach_stored :
      is_cluster_in_upgrade_failed_state s.instance.status ≡ false
      → str_eq s.instance.spec.pod.service_account_name "default" ≡ true
      → make_stateful_set s.instance ≡ some sts
      → r.set_controller_reference s.instance.meta sts.meta ≡ ok meta
      → reconcile_stateful_set r s
        ≡ store_stateful_set r
            (record sts { meta = meta })
            (r.client.stateful_sets.get meta.namespace meta.name s.world)
            s
  unfolding reconcile_stateful_set unless_failed reconcile_running reconcile_service_account
      wanted_stateful_set
  reach_stored running account made owned = rw (running, running, account, made, owned)

-- Where the cluster that was read is older than the one from which the StatefulSet was last
-- written, is not in the failed state, has the default service account, and its wanted
-- StatefulSet can be made and owned: reconcileStatefulSet fails with the staleness error and
-- changes nothing, neither in memory nor on any server.
pub reconcile_stateful_set_stale :
    {W : Type 0} (r : Reconciler W) (s : State W) (sts found : StatefulSet) (meta : ObjectMeta)
    → is_cluster_in_upgrade_failed_state s.instance.status ≡ false
    → str_eq s.instance.spec.pod.service_account_name "default" ≡ true
    → make_stateful_set s.instance ≡ some sts
    → r.set_controller_reference s.instance.meta sts.meta ≡ ok meta
    → r.client.stateful_sets.get meta.namespace meta.name s.world ≡ ok found
    → compare_resource_version s.instance found ≡ less
    → reconcile_stateful_set r s ≡ (err (failure (staleness s.instance found)), s)
unfolding store_stateful_set gate
reconcile_stateful_set_stale r s sts found meta running account made owned get stale =
    rw (reach_stored r s sts meta running account made owned, get, stale)

-- Where the cluster is not in the failed state, has the default service account, its wanted
-- StatefulSet can be made and is owned under the labels `m`, and no StatefulSet is found:
-- whatever Create answers, reconcileStatefulSet leaves a specification in memory whose labels are
-- `m` with the cluster's resource version under "owner-rv".
pub reconcile_stateful_set_labels :
    {W : Type 0} (r : Reconciler W) (s : State W) (sts : StatefulSet) (meta : ObjectMeta) (m : Dict)
    (t : String)
    → is_cluster_in_upgrade_failed_state s.instance.status ≡ false
    → str_eq s.instance.spec.pod.service_account_name "default" ≡ true
    → make_stateful_set s.instance ≡ some sts
    → r.set_controller_reference s.instance.meta sts.meta ≡ ok meta
    → r.client.stateful_sets.get meta.namespace meta.name s.world ≡ err (not_found t)
    → meta.labels ≡ some m
    → (reconcile_stateful_set r s).1.instance.spec.labels
      ≡ some (put "owner-rv" s.instance.meta.resource_version m)
unfolding store_stateful_set create_stateful_set
reconcile_stateful_set_labels {W = W} r s sts meta m t running account made owned missing labelled =
    rw (reach_stored r s sts meta running account made owned, missing, labelled)
      (go
        (r.client.stateful_sets.create
          (with_labels (record sts { meta = meta })
            (put "owner-rv" s.instance.meta.resource_version m))
          s.world)
        refl)
  where
    go :
        (p : Result StatefulSet × W)
        → r.client.stateful_sets.create
            (with_labels
              (record sts { meta = meta })
              (put "owner-rv" s.instance.meta.resource_version m))
            s.world
          ≡ p
        → (create_stateful_set r (record sts { meta = meta }) (some m) s).1.instance.spec.labels
          ≡ some (put "owner-rv" s.instance.meta.resource_version m)
    go (ok x, w) h = rw h
    go (err e, w) h = rw h

-- ===== src/Controller/StatefulSets/Whole/Keeps.antt =====
-- Invariants over reconcileStatefulSet.
use zookeeper_operator.Prelude.{String, false, Option, none, some, if◌then◌else◌}
use zookeeper_operator.Prelude.Dict.{Dict, put}
use zookeeper_operator.Kube.Objects.{StatefulSet}
use zookeeper_operator.Api.Types.{ZookeeperCluster}
use zookeeper_operator.Api.Status.{ZookeeperClusterStatus, is_cluster_in_upgrade_failed_state}
use zookeeper_operator.Controller.Interfaces.{
  not_found, failure, panic, Result, ok, err, Reconciler,
}
use zookeeper_operator.Controller.Interfaces.Guarded.{IsClosed, Spares, On}
use zookeeper_operator.Controller.Op.{gets, call, pure}
use zookeeper_operator.Controller.Op.Keeps.{
  Keeps, Keeps-if, Keeps-then, Keeps-bind, Keeps-gets, Keeps-call, Keeps-modify, Keeps-pure,
  keeps_rules,
}
use zookeeper_operator.Controller.Version.{
  Comparison, less, equal, greater, compare_resource_version,
}
use zookeeper_operator.Controller.StatefulSets.{
  wanted_stateful_set, find_stateful_set, recover_upgrade,
}
use zookeeper_operator.Controller.StatefulSets.Keeps.{
  wanted_stateful_set-Keeps, find_stateful_set-Keeps, recover_upgrade-Keeps,
  reconcile_service_account-Keeps, apply_size-Keeps,
}
use zookeeper_operator.Controller.StatefulSets.Whole.{
  with_labels, note_version, gate, create_stateful_set, store_stateful_set, reconcile_running,
  unless_failed, reconcile_stateful_set,
}

module _ {W : Type 0} (r : Reconciler W) {J : String → ZookeeperClusterStatus → Type 0}
    {G : W → Type 0} (c : IsClosed J) (g : Spares r J G) where
  note_version-Keeps :
      (version : String) (found : StatefulSet) (labels : Option Dict)
      → Keeps (On J) G (note_version r version found labels)
  unfolding note_version
  note_version-Keeps version found none = search keeps_rules
  note_version-Keeps version found (some m) = search keeps_rules

  gate-Keeps :
      (comparison : Comparison) (z : ZookeeperCluster) (found : StatefulSet)
      → Keeps (On J) G (gate r comparison z found)
  unfolding gate
  gate-Keeps less z found = search keeps_rules
  gate-Keeps equal z found = search keeps_rules
  gate-Keeps greater z found = note_version-Keeps z.meta.resource_version found found.meta.labels

  create_stateful_set-Keeps :
      (sts : StatefulSet) (labels : Option Dict) → Keeps (On J) G (create_stateful_set r sts labels)
  unfolding create_stateful_set
  create_stateful_set-Keeps sts none = search keeps_rules
  create_stateful_set-Keeps sts (some m) =
      Keeps-bind (gets (λ s. s.instance.meta.resource_version)) _ (Keeps-gets _) (λ version.
        let labels = put "owner-rv" version m in
        Keeps-then _ _
          (Keeps-modify (λ z. record z { spec = record z.spec { labels = some labels } })
            (λ z h. h))
          (Keeps-then (call (r.client.stateful_sets.create (with_labels sts labels))) _
            (Keeps-call _ (g.client.stateful_sets.creates (with_labels sts labels)))
            (Keeps-pure _)))

  store_stateful_set-Keeps :
      (sts : StatefulSet) (found : Result StatefulSet)
      → Keeps (On J) G (store_stateful_set r sts found)
  unfolding store_stateful_set
  store_stateful_set-Keeps sts (err (not_found t)) = create_stateful_set-Keeps sts sts.meta.labels
  store_stateful_set-Keeps sts (err (failure t)) = search keeps_rules
  store_stateful_set-Keeps sts (err panic) = search keeps_rules
  store_stateful_set-Keeps sts (ok found) =
      Keeps-bind (gets (λ s. s.instance)) _ (Keeps-gets _) (λ z.
        Keeps-bind (gate r (compare_resource_version z found) z found) _
          (gate-Keeps (compare_resource_version z found) z found)
          (λ gated. apply_size-Keeps r c g gated sts))

  reconcile_running-Keeps : Keeps (On J) G (reconcile_running r)
  unfolding reconcile_running
  reconcile_running-Keeps = Keeps-then _ _ (reconcile_service_account-Keeps r c g.client) (
      Keeps-bind (wanted_stateful_set r) _ (wanted_stateful_set-Keeps r c g.client) (λ sts.
        Keeps-bind (find_stateful_set r sts) _ (find_stateful_set-Keeps r c g.client sts)
          (λ found. store_stateful_set-Keeps sts found)))

  unless_failed-Keeps : Keeps (On J) G (unless_failed r)
  unfolding unless_failed
  unless_failed-Keeps =
      Keeps-bind (gets (λ s. is_cluster_in_upgrade_failed_state s.instance.status)) _ (Keeps-gets _)
        (λ failed. Keeps-if failed _ _ (Keeps-pure _) reconcile_running-Keeps)

  pub reconcile_stateful_set-Keeps : Keeps (On J) G (reconcile_stateful_set r)
  unfolding reconcile_stateful_set
  reconcile_stateful_set-Keeps =
      Keeps-bind (gets (λ s. is_cluster_in_upgrade_failed_state s.instance.status)) _ (Keeps-gets _)
        (λ failed.
          Keeps-bind (if failed then recover_upgrade r else pure false) _
            (Keeps-if failed _ _ (recover_upgrade-Keeps r c g.client) (Keeps-pure _))
            (λ returned. Keeps-if returned _ _ (Keeps-pure _) unless_failed-Keeps))

-- ===== src/Controller/StatefulSets/Whole/Rolled.antt =====
-- A run of reconcileStatefulSet that succeeds has brought the wanted StatefulSet to the API server.
use zookeeper_operator.Prelude.{String, false, Option, some, ◌≡◌, refl, ap, ◌∙◌}
use zookeeper_operator.Kube.Meta.{ObjectMeta}
use zookeeper_operator.Kube.Objects.{StatefulSet, ServiceAccount}
use zookeeper_operator.Api.Types.{ZookeeperCluster}
use zookeeper_operator.Api.Status.{is_cluster_in_upgrade_failed_state}
use zookeeper_operator.Zk.Workloads.{make_stateful_set}
use zookeeper_operator.Controller.Interfaces.{
  not_found, failure, panic, Result, ok, err, Reconciler,
}
use zookeeper_operator.Controller.Interfaces.Guarded.{SparesClusters, SparesEnsemble, Anything}
use zookeeper_operator.Controller.Op.{State, Op, continue, ◌>>=◌}
use zookeeper_operator.Controller.Op.Keeps.{Keeps, keeps_rules}
use zookeeper_operator.Controller.StatefulSets.{
  wanted_stateful_set, find_stateful_set, store_service_account, reconcile_service_account,
}
use zookeeper_operator.Controller.StatefulSets.Whole.{
  store_stateful_set, reconcile_running, unless_failed, reconcile_stateful_set,
}
use zookeeper_operator.Controller.StatefulSets.Whole.Applied.{
  Rollout, StoresSets, IsRolled, found_lem, store_stateful_set-Brings,
}

module _ {W : Type 0} (r : Reconciler W) where
  store_service_account-same :
      (z : ZookeeperCluster) (account : ServiceAccount) (found : Result ServiceAccount)
      → Keeps (λ y. y ≡ z) (λ w. Unit) (store_service_account r account found)
  unfolding store_service_account
  store_service_account-same z account (err (not_found t)) = search keeps_rules
  store_service_account-same z account (err (failure t)) = search keeps_rules
  store_service_account-same z account (err panic) = search keeps_rules
  store_service_account-same z account (ok found) = search keeps_rules

  -- The service account is no part of the cluster.
  reconcile_service_account-same :
      (z : ZookeeperCluster) → Keeps (λ y. y ≡ z) (λ w. Unit) (reconcile_service_account r)
  unfolding reconcile_service_account
  reconcile_service_account-same z = search (keeps_rules, store_service_account-same z) depth 9

  abbrev store_wanted : Op W (Unit {0})
  store_wanted = do
    sts ← wanted_stateful_set r
    found ← find_stateful_set r sts
    store_stateful_set r sts found

  module _ (held : String → String → W → Option StatefulSet) (admit : Rollout → Rollout)
      (server : StoresSets held admit r.client.stateful_sets)
      (clusters : (ns n : String) (b : StatefulSet)
        → SparesClusters r Anything (λ w. held ns n w ≡ some b))
      (ensemble : (ns n : String) (b : StatefulSet)
        → SparesEnsemble r.zk_client (λ w. held ns n w ≡ some b)) where
    -- what follows the service account
    stored-IsRolled :
        (t : State W) (sts : StatefulSet) (meta : ObjectMeta)
        → make_stateful_set t.instance ≡ some sts
        → r.set_controller_reference t.instance.meta sts.meta ≡ ok meta
        → (store_wanted t).0 ≡ ok tt
        → IsRolled r held admit server clusters ensemble
            (record sts { meta = meta })
            (store_wanted t).1.world
    unfolding wanted_stateful_set
    stored-IsRolled t sts meta made owned h =
        let wanted = record sts { meta = meta } in
        let found = r.client.stateful_sets.get meta.namespace meta.name t.world in
        rw (made, owned)
          ((store_stateful_set-Brings r held admit server clusters ensemble wanted found
              (found_lem r held admit server clusters ensemble wanted t.world found refl)).ends
            t tt (rw (made, owned) at h))

    reconcile_running-IsRolled :
        (s : State W) (sts : StatefulSet) (meta : ObjectMeta)
        → make_stateful_set s.instance ≡ some sts
        → r.set_controller_reference s.instance.meta sts.meta ≡ ok meta
        → (reconcile_running r s).0 ≡ ok tt
        → IsRolled r held admit server clusters ensemble
            (record sts { meta = meta })
            (reconcile_running r s).1.world
    unfolding reconcile_running wanted_stateful_set
    reconcile_running-IsRolled s sts meta made owned h =
        go (reconcile_service_account r s).0 (reconcile_service_account r s).1
          ((reconcile_service_account-same s.instance).at s (refl, tt)).0 h
      where
        go :
            (p : Result (Unit {0})) (t : State W)
            → t.instance ≡ s.instance
            → (continue p (λ _. store_wanted) t).0 ≡ ok tt
            → IsRolled r held admit server clusters ensemble
                (record sts { meta = meta })
                (continue p (λ _. store_wanted) t).1.world
        go (ok u) t same k =
            stored-IsRolled t sts meta (ap make_stateful_set same ∙ made)
              (ap (λ (z : ZookeeperCluster). r.set_controller_reference z.meta sts.meta) same
                ∙ owned)
              k
        go (err e) t same k = cc

    pub reconcile_stateful_set-IsRolled :
        (s : State W) (sts : StatefulSet) (meta : ObjectMeta)
        → is_cluster_in_upgrade_failed_state s.instance.status ≡ false
        → make_stateful_set s.instance ≡ some sts
        → r.set_controller_reference s.instance.meta sts.meta ≡ ok meta
        → (reconcile_stateful_set r s).0 ≡ ok tt
        → IsRolled r held admit server clusters ensemble
            (record sts { meta = meta })
            (reconcile_stateful_set r s).1.world
    unfolding reconcile_stateful_set unless_failed
    reconcile_stateful_set-IsRolled s sts meta running made owned h =
        rw (running, running)
          (reconcile_running-IsRolled s sts meta made owned (rw (running, running) at h))

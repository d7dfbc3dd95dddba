-- ===== src/Controller/Loop/Rolled.antt =====
-- The StatefulSet that the API server holds after a whole run.
use zookeeper_operator.Prelude.{String, false, Option, some, ◌≡◌, refl, ap, ◌∙◌, List, [], ◌∷◌}
use zookeeper_operator.Kube.Meta.{ObjectMeta}
use zookeeper_operator.Kube.Objects.{StatefulSet}
use zookeeper_operator.Api.Types.{ZookeeperCluster}
use zookeeper_operator.Api.Status.{is_cluster_in_upgrade_failed_state}
use zookeeper_operator.Zk.Workloads.{make_stateful_set}
use zookeeper_operator.Controller.Interfaces.{ok, Reconciler}
use zookeeper_operator.Controller.Interfaces.Guarded.{
  SparesClusters, SparesServing, SparesEnsemble, Anything, Anything-IsClosed, On,
}
use zookeeper_operator.Controller.Op.{State, ◌>>◌}
use zookeeper_operator.Controller.Op.Keeps.{Keeps, Keeps-then, Keeps-pure}
use zookeeper_operator.Controller.Finalizers.{reconcile_finalizers}
use zookeeper_operator.Controller.Services.{reconcile_config_map}
use zookeeper_operator.Controller.Services.Keeps.{
  reconcile_client_service-Keeps, reconcile_headless_service-Keeps,
  reconcile_admin_server_service-Keeps, reconcile_pod_disruption_budget-Keeps,
  reconcile_config_map-Keeps,
}
use zookeeper_operator.Controller.StatefulSets.Whole.{reconcile_stateful_set}
use zookeeper_operator.Controller.StatefulSets.Whole.Applied.{Rollout, StoresSets, IsRolled}
use zookeeper_operator.Controller.StatefulSets.Whole.Rolled.{reconcile_stateful_set-IsRolled}
use zookeeper_operator.Controller.Members.Keeps.{reconcile_cluster_status-Keeps}
use zookeeper_operator.Controller.Loop.{
  requeue_after, reconcile_time, prepare, run_all, others, steps, reconcile,
}
use zookeeper_operator.Controller.Loop.Ran.{then-Succeeds, reconcile-Ran}

-- the functions behind that of the StatefulSet
abbrev rest : {A : Type 0} → List A → List A
rest [] = []
rest (x ∷ xs) = xs

-- The writes of all objects but StatefulSets, and the calls of the ensemble, leave the StatefulSets of
-- a server.
pub record SparesSets {W : Type 0} (r : Reconciler W) (G : W → Type 0) : Type 0 where
  pub clusters : SparesClusters r Anything G
  pub serving : SparesServing r.client G
  pub ensemble : SparesEnsemble r.zk_client G

module _ {W : Type 0} (r : Reconciler W) (held : String → String → W → Option StatefulSet)
    (admit : Rollout → Rollout) (server : StoresSets held admit r.client.stateful_sets)
    (spared : (ns n : String) (b : StatefulSet) → SparesSets r (λ w. held ns n w ≡ some b)) where
  -- the wanted StatefulSet of a cluster, as the server is to hold it
  abbrev Rolled : StatefulSet → W → Type 0
  Rolled =
      IsRolled r held admit server (λ ns n b. (spared ns n b).clusters)
        (λ ns n b. (spared ns n b).ensemble)

  rest-Keeps :
      (ns n : String) (b : StatefulSet)
      → Keeps (On Anything) (λ w. held ns n w ≡ some b) (run_all r (rest (others r)))
  unfolding run_all others
  rest-Keeps ns n b =
      let g = spared ns n b in
      let c = Anything-IsClosed in
      Keeps-then _ _ (reconcile_client_service-Keeps r c g.serving) (
        Keeps-then _ _ (reconcile_headless_service-Keeps r c g.serving) (
          Keeps-then _ _ (reconcile_admin_server_service-Keeps r c g.serving) (
            Keeps-then _ _ (reconcile_pod_disruption_budget-Keeps r c g.serving) (
              Keeps-then _ _ (reconcile_cluster_status-Keeps r c g.clusters g.ensemble)
                (Keeps-pure tt)))))

  -- The config map is no part of the cluster.
  config_map-same : (s : State W) → (reconcile_config_map r s).1.instance ≡ s.instance
  config_map-same s =
      ((reconcile_config_map-Keeps r (λ y. y ≡ s.instance) {G = λ w. Unit}
          (record { creates = λ a w u. tt; updates = λ a w u. tt })).at
        s (refl, tt)).0

  steps-Rolled :
      (s : State W) (sts : StatefulSet) (meta : ObjectMeta)
      → let z = (reconcile_finalizers r s).1.instance in
        is_cluster_in_upgrade_failed_state z.status ≡ false
        → make_stateful_set z ≡ some sts
        → r.set_controller_reference z.meta sts.meta ≡ ok meta
        → (run_all r (steps r) s).0 ≡ ok tt
        → Rolled (record sts { meta = meta }) (run_all r (steps r) s).1.world
  unfolding steps others run_all
  steps-Rolled s sts meta running made owned h =
      let t = (reconcile_finalizers r s).1 in
      let u = (reconcile_config_map r t).1 in
      let same = config_map-same t in
      let cleaned =
        then-Succeeds (reconcile_finalizers r) (reconcile_config_map r >> run_all r (others r)) s
          h in
      let stored = then-Succeeds (reconcile_config_map r) (run_all r (others r)) t cleaned.second in
      let set =
        then-Succeeds (reconcile_stateful_set r) (run_all r (rest (others r))) u stored.second in
      let (b, held_b, e) =
        reconcile_stateful_set-IsRolled r held admit server (λ ns n b. (spared ns n b).clusters)
          (λ ns n b. (spared ns n b).ensemble) u sts meta
          (ap (λ (z : ZookeeperCluster). is_cluster_in_upgrade_failed_state z.status) same
            ∙ running)
          (ap make_stateful_set same ∙ made)
          (ap (λ (z : ZookeeperCluster). r.set_controller_reference z.meta sts.meta) same ∙ owned)
          set.first in
      rw (cleaned.ends, stored.ends, set.ends)
        (
          b,
          ((rest-Keeps meta.namespace meta.name b).at (reconcile_stateful_set r u).1
              (tt, held_b)).1,
          e,
        )

  -- Where an accepted write of a StatefulSet is stored, with what the server's defaulting `admit` makes of
  -- the replicas, the pod template and the update strategy that are sent, and no write of a cluster, a
  -- service or a disruption budget and no call of the ensemble changes the StatefulSet that the server
  -- holds under any key: if a run of Reconcile answers that it is to be run again after 30 seconds, which is
  -- its answer where all eight functions succeeded, and the cluster that reconcileFinalizers left in
  -- memory is not in the failed state, its StatefulSet can be made and its owner set, then the server holds,
  -- at the end of the run, under the StatefulSet's namespace and name one whose replicas, pod template
  -- and update strategy are what `admit` makes of the wanted ones, whether it was created or updated, at
  -- the same size or another one.
  pub reconcile-IsRolled :
      (namespace name : String) (w : W) (found : ZookeeperCluster) (sts : StatefulSet)
      (meta : ObjectMeta)
      → let prepared = (prepare r (r.clock.today w) found).0 in
        let z = (reconcile_finalizers r (record { instance = prepared; world = w })).1.instance in
        r.client.clusters.get namespace name w ≡ ok found
        → is_cluster_in_upgrade_failed_state z.status ≡ false
        → make_stateful_set z ≡ some sts
        → r.set_controller_reference z.meta sts.meta ≡ ok meta
        → (reconcile r namespace name w).0 ≡ requeue_after reconcile_time
        → Rolled (record sts { meta = meta }) (reconcile r namespace name w).1
  reconcile-IsRolled namespace name w found sts meta h running made owned k =
      let z = (prepare r (r.clock.today w) found).0 in
      let ran = reconcile-Ran r namespace name w found h k in
      rw ran.ends
        (steps-Rolled (record { instance = z; world = w }) sts meta running made owned ran.succeeds)

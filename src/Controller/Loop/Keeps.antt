-- ===== src/Controller/Loop/Keeps.antt =====
-- Invariants over Reconcile.
use zookeeper_operator.Prelude.{String, Bool, true, false, ◌≡◌, refl, Bool-cases, inl, inr}
use zookeeper_operator.Api.Types.{ZookeeperCluster}
use zookeeper_operator.Api.Defaults.{image_with_defaults}
use zookeeper_operator.Api.Spec.{
  spec_with_defaults, with_defaults, get_trigger_rolling_restart, set_trigger_rolling_restart,
}
use zookeeper_operator.Api.Status.{ZookeeperClusterStatus}
use zookeeper_operator.Controller.Interfaces.{
  not_found, failure, panic, Result, ok, err, Reconciler,
}
use zookeeper_operator.Controller.Interfaces.Guarded.{IsClosed, Spares, Guards, On}
use zookeeper_operator.Controller.Op.Keeps.{Keeps, Keeps-then, Keeps-pure}
use zookeeper_operator.Controller.Finalizers.Keeps.{reconcile_finalizers-Keeps}
use zookeeper_operator.Controller.Services.Keeps.{
  reconcile_client_service-Keeps, reconcile_headless_service-Keeps,
  reconcile_admin_server_service-Keeps, reconcile_pod_disruption_budget-Keeps,
  reconcile_config_map-Keeps,
}
use zookeeper_operator.Controller.StatefulSets.Whole.Keeps.{reconcile_stateful_set-Keeps}
use zookeeper_operator.Controller.Members.Keeps.{reconcile_cluster_status-Keeps}
use zookeeper_operator.Controller.Loop.{
  restart, prepare, run_all, others, steps, run_prepared, run_found, reconcile,
}

module _ {W : Type 0} (r : Reconciler W) {J : String → ZookeeperClusterStatus → Type 0}
    {G : W → Type 0} (c : IsClosed J) (g : Spares r J G) where
  -- the steps behind the config map's
  pub others-Keeps : Keeps (On J) G (run_all r (others r))
  unfolding run_all others
  others-Keeps = Keeps-then _ _ (reconcile_stateful_set-Keeps r c g) (
      Keeps-then _ _ (reconcile_client_service-Keeps r c g.client.serving) (
        Keeps-then _ _ (reconcile_headless_service-Keeps r c g.client.serving) (
          Keeps-then _ _ (reconcile_admin_server_service-Keeps r c g.client.serving) (
            Keeps-then _ _ (reconcile_pod_disruption_budget-Keeps r c g.client.serving) (
              Keeps-then _ _ (reconcile_cluster_status-Keeps r c g.client.clusters g.ensemble)
                (Keeps-pure tt))))))

module _ {W : Type 0} (r : Reconciler W) {J : String → ZookeeperClusterStatus → Type 0}
    {G : W → Type 0} (c : IsClosed J) (g : Guards r J G) where
  filled-On : (z : ZookeeperCluster) → On J z → On J (with_defaults r.is_zero z).0
  unfolding with_defaults spec_with_defaults image_with_defaults
  filled-On z h = c.fills z.status h

  prepare-On : (today : String) (z : ZookeeperCluster) → On J z → On J (prepare r today z).0
  unfolding prepare restart set_trigger_rolling_restart
  prepare-On today z h =
      elim (Bool-cases (get_trigger_rolling_restart (with_defaults r.is_zero z).0)) [
        | inl e ↦ rw e (filled-On z h)
        | inr e ↦ rw e (filled-On z h)
      ]

  steps-Keeps : Keeps (On J) G (run_all r (steps r))
  unfolding run_all steps
  steps-Keeps = Keeps-then _ _ (reconcile_finalizers-Keeps r J G g.spares.client) (
      Keeps-then _ _ (reconcile_config_map-Keeps r (On J) g.config_maps)
        (others-Keeps r c g.spares))

  run_prepared-G :
      (z : ZookeeperCluster) (changed : Bool) (w : W)
      → On J z
      → G w
      → G (run_prepared r (z, changed) w).1
  unfolding run_prepared
  run_prepared-G z true w h k = (g.spares.client.clusters.stores z w h k).leaves
  run_prepared-G z false w h k = (steps-Keeps.at (record { instance = z; world = w }) (h, k)).1

  run_found-G :
      (found : Result ZookeeperCluster) (w : W)
      → ((z : ZookeeperCluster) → found ≡ ok z → On J z)
      → G w
      → G (run_found r found w).1
  unfolding run_found
  run_found-G (err (not_found t)) w h k = k
  run_found-G (err (failure t)) w h k = k
  run_found-G (err panic) w h k = k
  run_found-G (ok z) w h k =
      let (prepared, changed) = prepare r (r.clock.today w) z in
      run_prepared-G prepared changed w (prepare-On (r.clock.today w) z (h z refl)) k

  -- Whatever a run does, it leaves the world well.
  pub reconcile-G : (namespace name : String) (w : W) → G w → G (reconcile r namespace name w).1
  unfolding reconcile
  reconcile-G namespace name w k =
      run_found-G (r.client.clusters.get namespace name w) w
        (λ z e. g.spares.client.clusters.reads namespace name w z k e) k

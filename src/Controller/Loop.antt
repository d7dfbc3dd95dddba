-- ===== src/Controller/Loop.antt =====
-- Reconcile: one run over a request.
pub mod Ran
pub mod Applied
pub mod Rolled
pub mod Keeps
pub mod Versions
pub mod Runs
use zookeeper_operator.Prelude.{
  ℕ, String, Bool, true, false, ◌||◌, Option, none, some, List, [], ◌∷◌, if◌then◌else◌,
}
use zookeeper_operator.Prelude.Dict.{put, entries}
use zookeeper_operator.Api.Types.{ZookeeperCluster}
use zookeeper_operator.Api.Spec.{
  with_defaults, get_trigger_rolling_restart, set_trigger_rolling_restart,
}
use zookeeper_operator.Controller.Interfaces.{Error, not_found, Result, ok, err, Reconciler}
use zookeeper_operator.Controller.Op.{State, Op, ◌>>=◌, ◌>>◌, pure, call}
use zookeeper_operator.Controller.StatefulSets.Whole.{reconcile_stateful_set}
use zookeeper_operator.Controller.Services.{
  reconcile_client_service, reconcile_headless_service, reconcile_admin_server_service,
  reconcile_pod_disruption_budget, reconcile_config_map,
}
use zookeeper_operator.Controller.Members.{reconcile_cluster_status}
use zookeeper_operator.Controller.Finalizers.{reconcile_finalizers}

-- ctrl.Result and the error: nothing more to do, run again at once, run again after some seconds
pub data Answer : Type 0 where
  done : Answer
  requeue : Answer
  requeue_after : ℕ → Answer
  failed : Error → Answer

-- ReconcileTime in seconds
abbrev pub reconcile_time : ℕ
reconcile_time = 30

module _ {W : Type 0} (r : Reconciler W) where
  -- The annotation that restarts the pods is set, and the trigger taken back.
  restart : String → ZookeeperCluster → ZookeeperCluster
  restart today z = set_trigger_rolling_restart false (record z {
    spec = record z.spec {
      pod = record z.spec.pod {
        annotations = some (put "restartTime" today (entries z.spec.pod.annotations));
      };
    };
  })

  -- the instance before the test of `changed`, and `changed`
  unfoldable pub prepare : String → ZookeeperCluster → ZookeeperCluster × Bool
  unfolding restart
  prepare today z =
      let (filled, changed) = with_defaults r.is_zero z in
      if get_trigger_rolling_restart filled then (restart today filled, true) else (filled, changed)

  -- the loop over the functions, up to the first error
  unfoldable pub run_all : List (Op W (Unit {0})) → Op W (Unit {0})
  run_all [] = pure tt
  run_all (fun ∷ funs) = do fun; run_all funs

  -- the functions behind that of the config map
  unfoldable pub others : List (Op W (Unit {0}))
  others =
      reconcile_stateful_set r
      ∷ reconcile_client_service r
      ∷ reconcile_headless_service r
      ∷ reconcile_admin_server_service r
      ∷ reconcile_pod_disruption_budget r
      ∷ reconcile_cluster_status r
      ∷ []

  unfoldable pub steps : List (Op W (Unit {0}))
  unfolding others
  steps = reconcile_finalizers r ∷ reconcile_config_map r ∷ others

  pub answer_of : Result (Unit {0}) → Answer
  answer_of (ok u) = requeue_after reconcile_time
  answer_of (err e) = failed e

  stored_answer : Result ZookeeperCluster → Answer
  stored_answer (ok z) = requeue
  stored_answer (err e) = failed e

  run_prepared : ZookeeperCluster × Bool → W → Answer × W
  unfolding run_all steps answer_of stored_answer
  run_prepared (z, true) w =
      let (answer, w') = r.client.clusters.update z w in (stored_answer answer, w')
  run_prepared (z, false) w =
      let (answer, s) = run_all steps (record { instance = z; world = w }) in
      (answer_of answer, s.world)

  run_found : Result ZookeeperCluster → W → Answer × W
  unfolding run_prepared
  run_found (err (not_found t)) w = (done, w)
  run_found (err e) w = (failed e, w)
  run_found (ok z) w = run_prepared (prepare (r.clock.today w) z) w

  -- `namespace` and `name` are those of the request
  unfoldable pub reconcile : String → String → W → Answer × W
  unfolding run_found
  reconcile namespace name w = run_found (r.client.clusters.get namespace name w) w

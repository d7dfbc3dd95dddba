-- ===== src/Controller/Loop/Runs.antt =====
-- Reconcile over two runs, and its loop over the functions.
use zookeeper_operator.Prelude.{
  pos, scale_int, arith, String, false, List, [], ◌∷◌, ◌++◌, ◌≡◌, refl, ap, ◌∙◌, Bool-cases, inl,
  inr,
}
use zookeeper_operator.Api.Types.{ZookeeperCluster}
use zookeeper_operator.Api.Defaults.{is_unset, fill, pod_with_defaults}
use zookeeper_operator.Api.Spec.{
  spec_with_defaults, with_defaults, get_trigger_rolling_restart, set_trigger_rolling_restart,
}
use zookeeper_operator.Api.Spec.Settle.{with_defaults_settles}
use zookeeper_operator.Controller.Interfaces.{Error, Result, ok, err, Reconciler}
use zookeeper_operator.Controller.Op.{State, Op, continue}
use zookeeper_operator.Controller.Loop.{
  restart, prepare, run_all, steps, answer_of, run_prepared, run_found, reconcile,
}

module _ {W : Type 0} (r : Reconciler W) where
  restart-with_defaults :
      (today : String) (z : ZookeeperCluster)
      → with_defaults r.is_zero (restart r today z)
        ≡ (restart r today (with_defaults r.is_zero z).0, (with_defaults r.is_zero z).1)
  unfolding restart with_defaults spec_with_defaults pod_with_defaults set_trigger_rolling_restart
  restart-with_defaults today z = refl

  trigger-restart :
      (today : String) (z : ZookeeperCluster)
      → get_trigger_rolling_restart (restart r today z) ≡ false
  unfolding restart get_trigger_rolling_restart set_trigger_rolling_restart
  trigger-restart today z = refl

  -- a cluster that WithDefaults leaves alone and that carries no trigger
  prepare_idle :
      (today : String) (z : ZookeeperCluster)
      → with_defaults r.is_zero z ≡ (z, false)
      → get_trigger_rolling_restart z ≡ false
      → prepare r today z ≡ (z, false)
  unfolding prepare
  prepare_idle today z h k = rw (h, k)

  pub prepare_settles :
      (today later : String) (z : ZookeeperCluster)
      → with_defaults r.is_zero (with_defaults r.is_zero z).0
        ≡ ((with_defaults r.is_zero z).0, false)
      → prepare r later (prepare r today z).0 ≡ ((prepare r today z).0, false)
  unfolding prepare
  prepare_settles today later z h =
      let filled = (with_defaults r.is_zero z).0 in
      elim (Bool-cases (get_trigger_rolling_restart filled)) [
        | inl t ↦ rw t (
            prepare_idle later (restart r today filled)
              (restart-with_defaults today filled ∙ ap (λ p. (restart r today p.0, p.1)) h)
              (trigger-restart today filled))
        | inr f ↦ rw f (prepare_idle later filled h f)
      ]

-- Where the API server stores the cluster that the first reconciliation prepared (with its defaults
-- filled in and its restart trigger taken back), the next reconciliation, at any later time, has
-- nothing to store: it runs the steps on that very cluster. The conditions are those under which
-- WithDefaults settles: the default volume size is no zero quantity, and twice or twenty times the
-- tick time does not wrap to zero.
pub reconcile_settles :
    {W : Type 0} (r : Reconciler W) (namespace name today : String) (z : ZookeeperCluster) (w : W)
    → r.is_zero "20Gi" ≡ false
    → is_unset (scale_int 2 (fill z.spec.conf.tick_time (pos 2000))) ≡ false
    → is_unset (scale_int 20 (fill z.spec.conf.tick_time (pos 2000))) ≡ false
    → r.client.clusters.get namespace name w ≡ ok (prepare r today z).0
    → let (answer, s) =
        run_all r (steps r) (record { instance = (prepare r today z).0; world = w }) in
      reconcile r namespace name w ≡ (answer_of r answer, s.world)
unfolding reconcile run_found run_prepared
reconcile_settles r namespace name today z w sized h k found = rw (
  found,
  prepare_settles r today (r.clock.today w) z (with_defaults_settles r.is_zero z sized h k),
)

-- Where the functions before one of them succeed and it fails, the loop of Reconcile returns its
-- error and leaves the state as that function left it: none of the functions behind it runs.
pub run_all_stops :
    {W : Type 0} (r : Reconciler W) (before behind : List (Op W (Unit {0}))) (fun : Op W (Unit {0}))
    (s t u : State W) (e : Error)
    → run_all r before s ≡ (ok tt, t)
    → fun t ≡ (err e, u)
    → run_all r (before ++ fun ∷ behind) s ≡ (err e, u)
unfolding run_all
run_all_stops r [] behind fun s t u e h k = rw (ap (λ p. fun p.1) h ∙ k)
run_all_stops {W = W} r (first ∷ before) behind fun s t u e h k =
    go (first s) h (λ v q. run_all_stops r before behind fun v t u e q k)
  where
    go :
        (p : Result (Unit {0}) × State W)
        → continue p.0 (λ x. run_all r before) p.1 ≡ (ok tt, t)
        → ((v : State W)
            → run_all r before v ≡ (ok tt, t)
            → run_all r (before ++ fun ∷ behind) v ≡ (err e, u))
        → continue p.0 (λ x. run_all r (before ++ fun ∷ behind)) p.1 ≡ (err e, u)
    go (ok x, v) q later = later v q
    go (err x, v) q later = grind (arith, q)

-- ===== src/Controller/Loop/Ran.antt =====
-- Runs of Reconcile whose functions all succeed.
use zookeeper_operator.Prelude.{String, Bool, true, false, ◌≡◌, ◌≢◌, refl}
use zookeeper_operator.Api.Types.{ZookeeperCluster}
use zookeeper_operator.Controller.Interfaces.{Result, ok, err, Reconciler}
use zookeeper_operator.Controller.Op.{State, Op, continue, ◌>>◌}
use zookeeper_operator.Controller.Loop.{
  Answer, requeue_after, reconcile_time, prepare, run_all, steps, answer_of, stored_answer,
  run_prepared, run_found, reconcile,
}

-- a sequence that succeeds: its first part does, and the second goes on from there
pub record Succeeds {W : Type 0} (m k : Op W (Unit {0})) (s : State W) : Type 0 where
  pub first : (m s).0 ≡ ok tt
  pub second : (k (m s).1).0 ≡ ok tt
  pub ends : (m >> k) s ≡ k (m s).1

pub then-Succeeds :
    {W : Type 0} (m k : Op W (Unit {0})) (s : State W) → ((m >> k) s).0 ≡ ok tt → Succeeds m k s
then-Succeeds {W = W} m k s h = go (m s) refl h
  where
    go :
        (p : Result (Unit {0}) × State W)
        → m s ≡ p
        → (continue p.0 (λ _. k) p.1).0 ≡ ok tt
        → Succeeds m k s
    go (ok u, t) e h = record { first = rw e; second = rw e h; ends = rw e }
    go (err x, t) e h = cc

-- a run that wrote no default and no restart, and whose functions all succeeded
pub record Ran {W : Type 0} (r : Reconciler W) (s : State W) (p : Answer × W) : Type 0 where
  pub succeeds : (run_all r (steps r) s).0 ≡ ok tt
  pub ends : p.1 ≡ (run_all r (steps r) s).1.world

module _ {W : Type 0} (r : Reconciler W) where
  prepared-Ran :
      (z : ZookeeperCluster) (changed : Bool) (w : W)
      → (run_prepared r (z, changed) w).0 ≡ requeue_after reconcile_time
      → Ran r (record { instance = z; world = w }) (run_prepared r (z, changed) w)
  unfolding run_prepared answer_of stored_answer
  prepared-Ran z true w h = elim (answered (r.client.clusters.update z w).0 h) [ ]
    where
      answered : (p : Result ZookeeperCluster) → stored_answer r p ≢ requeue_after reconcile_time
      answered (ok x) e = cc
      answered (err x) e = cc
  prepared-Ran z false w h = record {
    succeeds = answered (run_all r (steps r) (record { instance = z; world = w })).0 h;
    ends = refl;
  }
    where
      answered : (p : Result (Unit {0})) → answer_of r p ≡ requeue_after reconcile_time → p ≡ ok tt
      answered (ok u) e = refl
      answered (err x) e = cc

  -- The answer to run again after 30 seconds is given where all functions succeeded.
  pub reconcile-Ran :
      (namespace name : String) (w : W) (found : ZookeeperCluster)
      → r.client.clusters.get namespace name w ≡ ok found
      → (reconcile r namespace name w).0 ≡ requeue_after reconcile_time
      → Ran r
          (record { instance = (prepare r (r.clock.today w) found).0; world = w })
          (reconcile r namespace name w)
  unfolding reconcile run_found
  reconcile-Ran namespace name w found h k =
      let (z, changed) = prepare r (r.clock.today w) found in
      rw h (prepared-Ran z changed w (rw h at k))

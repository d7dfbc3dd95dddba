-- ===== src/Operator/Start/Leading.antt =====
-- The manager behind the election.
use zookeeper_operator.Prelude.{
  ℕ, String, false, Option, none, some, List, ◌⊎◌, ◌≡◌, ◌≢◌, refl, ◌∙◌, ap, arith,
}
use zookeeper_operator.Controller.Interfaces.{Result, ok, err}
use zookeeper_operator.Utils.Leader.{become_leader}
use zookeeper_operator.Operator.Namespaces.{
  get_watch_namespace, manager_namespaces, get_operator_namespace,
}
use zookeeper_operator.Operator.Start.{
  Platform, Flags, Status, or_exit, once_answered, setup_with_manager, run_manager, lead, main,
}

-- the call of BecomeLeader
abbrev pub election : {W : Type 0} → Platform W → String → W → Option (Result (Unit {0})) × W
election p ns = become_leader p.lock_client p.pod_name "zookeeper-operator-lock" ns

-- The outcome of a chain that ends with status 1 or waits without end.
record Ends {W : Type 0} (Q : W → Type 0) (r : Status × W) : Type 0 where
  stopped : (r.0 ≡ some 1) ⊎ (r.0 ≡ none)
  kept : Q r.1

abbrev number_of : Status → ℕ
number_of none = 0
number_of (some n) = n

status_one : ◌≢◌ {A = Status} (some 1) (some 0)
status_one h = let e : 1 ≡ 0 = ap number_of h in omega (arith, e)

module _ {W A : Type 0} where
  -- A chain that ends with status 0 has passed its first step.
  or_exit_zero :
      (r : Result A × W) (rest : A → W → Status × W)
      → (or_exit r rest).0 ≡ some 0
      → (a : A) × (r.0 ≡ ok a) × (or_exit r rest ≡ rest a r.1) × ((rest a r.1).0 ≡ some 0)
  unfolding or_exit
  or_exit_zero (ok a, v) rest h = (a, refl, refl, h)
  or_exit_zero (err e, v) rest h = absurd (status_one h)

  once_answered_zero :
      (r : Option (Result A) × W) (rest : A → W → Status × W)
      → (once_answered r rest).0 ≡ some 0
      → (a : A) × (r.0 ≡ some (ok a))
        × (once_answered r rest ≡ rest a r.1)
        × ((rest a r.1).0 ≡ some 0)
  unfolding once_answered
  once_answered_zero (none, v) rest h = cc
  once_answered_zero (some (ok a), v) rest h = (a, refl, refl, h)
  once_answered_zero (some (err e), v) rest h = absurd (status_one h)

-- what a start has gone through that ends with status 0
pub record Served {W : Type 0} (p : Platform W) (after : W) : Type 0 where
  pub namespace : String
  pub before_election : W
  pub elected : (election p namespace before_election).0 ≡ some (ok tt)
  pub before_start : W
  pub started : (p.start before_start).0 ≡ ok tt
  pub ended : after ≡ (p.start before_start).1

module _ {W : Type 0} (p : Platform W) where
  run_manager_zero :
      (namespaces : List String) (metrics_addr : String) (w : W)
      → (run_manager p namespaces metrics_addr w).0 ≡ some 0
      → (s : W) × ((p.start s).0 ≡ ok tt)
        × ((run_manager p namespaces metrics_addr w).1 ≡ (p.start s).1)
  unfolding run_manager
  run_manager_zero namespaces metrics_addr w h =
      let (_, _, e1, h1) = or_exit_zero (p.get_config w) _ h in
      let (_, _, e2, h2) = or_exit_zero (p.new_manager namespaces metrics_addr _) _ h1 in
      let (_, _, e3, h3) = or_exit_zero (setup_with_manager p _) _ h2 in
      let (_, started, e4, _) = or_exit_zero (p.start _) _ h3 in
      (_, started, ap (λ r. r.1) (e1 ∙ e2 ∙ e3 ∙ e4))

  lead-Served :
      (namespaces : List String) (metrics_addr : String) (w : W)
      → (lead p namespaces metrics_addr w).0 ≡ some 0
      → Served p (lead p namespaces metrics_addr w).1
  unfolding lead
  lead-Served namespaces metrics_addr w h =
      let (_, _, e1, h1) = or_exit_zero (p.get_config w) _ h in
      let (ns, _, e2, h2) = or_exit_zero (get_operator_namespace _, _) _ h1 in
      let (_, elected, e3, h3) = once_answered_zero (election p ns _) _ h2 in
      let (s, started, e4) = run_manager_zero namespaces metrics_addr _ h3 in
      record {
        namespace = ns;
        before_election = _;
        elected = elected;
        before_start = s;
        started = started;
        ended = ap (λ r. r.1) (e1 ∙ e2 ∙ e3) ∙ e4;
      }

  -- Where main ends with status 0 and was not asked for the version: an election was won, and the
  -- manager was started and came to its end without an error, as the last thing that happened.
  pub main-Served :
      (flags : Flags) (w : W)
      → flags.version ≡ false
      → (main p flags w).0 ≡ some 0
      → Served p (main p flags w).1
  unfolding main
  main-Served flags w e h = rw e (
      lead-Served (manager_namespaces (get_watch_namespace p.watch_namespace).0)
        flags.metrics_bind_address w (rw e at h))

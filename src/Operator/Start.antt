-- ===== src/Operator/Start.antt =====
-- main.go: main, and SetupWithManager of controllers/zookeepercluster_controller.go. The
-- configuration of the cluster's server, the manager and the clients are parameters.
pub mod Leading
use zookeeper_operator.Prelude.{
  ℕ, String, Bool, true, Option, none, some, List, [], ◌∷◌, if◌then◌else◌,
}
use zookeeper_operator.Controller.Interfaces.{Error, Result, ok, err}
use zookeeper_operator.Utils.Leader.{LockClient, become_leader}
use zookeeper_operator.Operator.Namespaces.{
  get_watch_namespace, manager_namespaces, get_operator_namespace,
}

-- what a controller is registered with: the kind it is for, the kinds it owns, and whether
-- GenerationChangedPredicate filters the events
pub record Registration : Type 0 where
  pub for_kind : String
  pub owns : List String
  pub generation_changes_only : Bool

-- config.GetConfig, os.ReadFile, ctrl.NewManager (with the namespaces and the metrics address),
-- Complete of the controller's builder, and Start of the manager. The environment does not change.
pub record Platform (W : Type 0) : Type 0 where
  pub watch_namespace : Option String
  pub pod_name : String
  pub lock_client : LockClient W
  pub get_config : W → Result (Unit {0}) × W
  pub read_file : String → W → Result String
  pub new_manager : List String → String → W → Result (Unit {0}) × W
  pub complete : Registration → W → Result (Unit {0}) × W
  pub start : W → Result (Unit {0}) × W

-- what flag.Parse leaves of the flags that main reads
pub record Flags : Type 0 where
  pub version : Bool
  pub metrics_bind_address : String

-- the exit status, or `none` where the program waits for the lead without end
abbrev pub Status : Type 0
Status = Option ℕ

-- os.Exit(1) on an error, and logrus.Fatal
unfoldable pub or_exit {ℓ} :
    {A : Type 0} {W : Type ℓ} → Result A × W → (A → W → Status × W) → Status × W
or_exit (ok a, w) rest = rest a w
or_exit (err e, w) rest = (some 1, w)

-- the same behind a call that may not come back
unfoldable pub once_answered {ℓ} :
    {A : Type 0} {W : Type ℓ} → Option (Result A) × W → (A → W → Status × W) → Status × W
unfolding or_exit
once_answered (none, w) rest = (none, w)
once_answered (some r, w) rest = or_exit (r, w) rest

module _ {W : Type 0} (p : Platform W) where
  -- the manager watches the clusters and the objects that it makes for them
  unfoldable pub setup_with_manager : W → Result (Unit {0}) × W
  setup_with_manager = p.complete (record {
    for_kind = "ZookeeperCluster";
    owns = "StatefulSet" ∷ "Service" ∷ "Pod" ∷ [];
    generation_changes_only = true;
  })

  -- from the manager on; ctrl.GetConfigOrDie ends the program on an error
  pub run_manager : List String → String → W → Status × W
  run_manager namespaces metrics_addr w = or_exit (p.get_config w) (λ _ v.
      or_exit (p.new_manager namespaces metrics_addr v)
        (λ _ u. or_exit (setup_with_manager u) (λ _ t. or_exit (p.start t) (λ _ s. (some 0, s)))))

  -- from the configuration on
  pub lead : List String → String → W → Status × W
  lead namespaces metrics_addr w = or_exit (p.get_config w) (λ _ v.
      or_exit
        (
          get_operator_namespace
              (p.read_file "/var/run/secrets/kubernetes.io/serviceaccount/namespace" v),
          v,
        )
        (λ operator_ns u.
          once_answered
            (become_leader p.lock_client p.pod_name "zookeeper-operator-lock" operator_ns u)
            (λ _ t. run_manager namespaces metrics_addr t)))

  -- the exit status; a missing WATCH_NAMESPACE is logged and reads as empty
  unfoldable pub main : Flags → W → Status × W
  unfolding lead run_manager
  main flags w =
      let (namespaces, missing) = get_watch_namespace p.watch_namespace in
      let watched = manager_namespaces namespaces in
      if flags.version then (some 0, w) else lead watched flags.metrics_bind_address w

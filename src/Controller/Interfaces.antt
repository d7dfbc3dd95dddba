-- ===== src/Controller/Interfaces.antt =====
-- What the reconciler is given: the Kubernetes client, the client of the ensemble, the clock. `W` is
-- the state of all that lies outside of the operator: the API server, the ensemble, the time.
pub mod Guarded
use zookeeper_operator.Prelude.{ℕ, ℤ, String, Bool, List}
use zookeeper_operator.Prelude.Dict.{Dict}
use zookeeper_operator.Kube.Meta.{ObjectMeta}
use zookeeper_operator.Kube.Pods.{Pod, PersistentVolumeClaim}
use zookeeper_operator.Kube.Objects.{
  StatefulSet, Service, ConfigMap, PodDisruptionBudget, ServiceAccount,
}
use zookeeper_operator.Api.Types.{ZookeeperCluster}

-- An error is one that errors.IsNotFound recognises, or another one. A panic ends the reconciliation
-- like an error that no caller handles.
pub data Error : Type 0 where
  not_found : String → Error
  failure : String → Error
  panic : Error

-- the text that `%v` prints
abbrev pub describe : Error → String
describe (not_found t) = t
describe (failure t) = t
describe panic = "panic"

pub data Result {ℓ} (A : Type ℓ) : Type ℓ where
  ok : A → Result A
  err : Error → Result A

-- `if err != nil { return err }` behind a call
abbrev pub go_on {ℓ} :
    {W : Type ℓ} → Result (Unit {0}) × W → (W → Result (Unit {0}) × W) → Result (Unit {0}) × W
go_on (ok u, w) rest = rest w
go_on (err e, w) rest = (err e, w)

-- client.Client at one kind of object: Get by namespace and name, Create and Update. A write returns
-- the server's version of the object, with which the client overwrites the caller's.
pub record Resource (W : Type 0) (A : Type 0) : Type 0 where
  pub get : String → String → W → Result A
  pub create : A → W → Result A × W
  pub update : A → W → Result A × W

-- `list` takes a namespace and the labels to match.
pub record Client (W : Type 0) : Type 0 where
  pub clusters : Resource W ZookeeperCluster
  pub update_status : ZookeeperCluster → W → Result ZookeeperCluster × W
  pub stateful_sets : Resource W StatefulSet
  pub services : Resource W Service
  pub config_maps : Resource W ConfigMap
  pub budgets : Resource W PodDisruptionBudget
  pub service_accounts : Resource W ServiceAccount
  pub list_pods : String → Dict → W → Result (List Pod)
  pub list_pvcs : String → Dict → W → Result (List PersistentVolumeClaim)
  pub delete_pvc : String → String → W → Result (Unit {0}) × W

-- the interface ZookeeperClient of pkg/zk/zookeeper_client.go
pub record ZookeeperClient (W : Type 0) : Type 0 where
  pub connect : String → W → Result (Unit {0}) × W
  pub create_node : ZookeeperCluster → String → W → Result (Unit {0}) × W
  pub node_exists : String → W → Result ℤ × W
  pub update_node : String → String → ℤ → W → Result (Unit {0}) × W
  pub close : W → W

-- `now` is the present in the layout RFC3339 and `today` in RFC850. `is_past t n` tells whether the
-- present lies after the time that time.Parse reads from `t`, plus `n` seconds.
pub record Clock (W : Type 0) : Type 0 where
  pub now : W → String
  pub today : W → String
  pub is_past : String → ℕ → W → Bool

-- ZookeeperClusterReconciler, with controllerutil.SetControllerReference (the owner's and the
-- object's metadata), the test for a zero quantity, and the flag of pkg/controller/config.
pub record Reconciler (W : Type 0) : Type 0 where
  pub client : Client W
  pub zk_client : ZookeeperClient W
  pub clock : Clock W
  pub set_controller_reference : ObjectMeta → ObjectMeta → Result ObjectMeta
  pub is_zero : String → Bool
  pub disable_finalizer : Bool

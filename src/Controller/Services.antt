-- ===== src/Controller/Services.antt =====
-- The reconciliations of the three services, the disruption budget and the config map.
pub mod Applied
pub mod Keeps
pub mod Outcomes
use zookeeper_operator.Prelude.{
  ℤ, String, str_eq, ◌&◌, Bool, true, false, Option, none, some, List, [], ◌∷◌, if◌then◌else◌,
}
use zookeeper_operator.Std.Strconv.{itoa}
use zookeeper_operator.Kube.Objects.{Service, ConfigMap, PodDisruptionBudget}
use zookeeper_operator.Api.Types.{ZookeeperCluster}
use zookeeper_operator.Api.Status.{ZookeeperClusterStatus}
use zookeeper_operator.Api.Ports.{zookeeper_ports}
use zookeeper_operator.Zk.Config.{make_config_map}
use zookeeper_operator.Zk.Services.{
  make_client_service, make_headless_service, make_admin_server_service, make_pod_disruption_budget,
}
use zookeeper_operator.Zk.Sync.{sync_service, sync_config_map}
use zookeeper_operator.Controller.Interfaces.{not_found, Result, ok, err, Resource, Reconciler}
use zookeeper_operator.Controller.Op.{
  State, Op, ◌>>=◌, ◌>>◌, pure, raise, gets, call, lift, modify_status,
}

module _ {W A : Type 0} (objects : Resource W A) (sync : A → A → A)
    (then_do : A → Op W (Unit {0})) where
  -- The branches on a Get that the three services and the config map share: Create where the object
  -- is missing, and otherwise Update of what was found, with the wanted fields, and what follows.
  store : A → Result A → Op W (Unit {0})
  store wanted (err (not_found t)) = do created ← call (objects.create wanted); pure tt
  store wanted (err e) = raise e
  store wanted (ok found) = do stored ← call (objects.update (sync found wanted)); then_do stored

-- the last address that is not empty, as the loop over the ingress leaves it
last_endpoint : ℤ → List String → String → String
last_endpoint port [] endpoint = endpoint
last_endpoint port (ip ∷ ips) endpoint =
    last_endpoint port ips (if str_eq ip "" then endpoint else ip & ":" & itoa port)

-- the client endpoints of the status
pub note_endpoints : ZookeeperCluster → Service → ZookeeperClusterStatus → ZookeeperClusterStatus
unfolding last_endpoint
note_endpoints z svc status =
    let port = (zookeeper_ports z.spec.ports).client in
    record status {
      internal_client_endpoint = svc.spec.cluster_ip & ":" & itoa port;
      external_client_endpoint =
          if str_eq svc.spec.type "LoadBalancer"
          then last_endpoint port svc.ingress_ips status.external_client_endpoint
          else "N/A";
    }

module _ {W : Type 0} (r : Reconciler W) where
  -- the service under its owner, looked up and stored
  reconcile_service : (ZookeeperCluster → Service) → (Service → Op W (Unit {0})) → Op W (Unit {0})
  unfolding store
  reconcile_service make then_do = do
    instance ← gets (λ s. s.instance)
    let svc = make instance
    meta ← lift (r.set_controller_reference instance.meta svc.meta)
    found ← gets (λ s. r.client.services.get meta.namespace meta.name s.world)
    store r.client.services sync_service then_do (record svc { meta = meta }) found

  unfoldable pub reconcile_client_service : Op W (Unit {0})
  unfolding reconcile_service note_endpoints
  reconcile_client_service =
      reconcile_service make_client_service
        (λ svc. do instance ← gets (λ s. s.instance); modify_status (note_endpoints instance svc))

  unfoldable pub reconcile_headless_service : Op W (Unit {0})
  unfolding reconcile_service
  reconcile_headless_service = reconcile_service make_headless_service (λ svc. pure tt)

  unfoldable pub reconcile_admin_server_service : Op W (Unit {0})
  unfolding reconcile_service
  reconcile_admin_server_service = reconcile_service make_admin_server_service (λ svc. pure tt)

  -- An existing disruption budget is left as it is.
  keep_budget : PodDisruptionBudget → Result PodDisruptionBudget → Op W (Unit {0})
  keep_budget pdb (err (not_found t)) = do created ← call (r.client.budgets.create pdb); pure tt
  keep_budget pdb (err e) = raise e
  keep_budget pdb (ok found) = pure tt

  unfoldable pub reconcile_pod_disruption_budget : Op W (Unit {0})
  unfolding keep_budget
  reconcile_pod_disruption_budget = do
    instance ← gets (λ s. s.instance)
    let pdb = make_pod_disruption_budget instance
    meta ← lift (r.set_controller_reference instance.meta pdb.meta)
    found ← gets (λ s. r.client.budgets.get meta.namespace meta.name s.world)
    keep_budget (record pdb { meta = meta }) found

  unfoldable pub reconcile_config_map : Op W (Unit {0})
  unfolding store
  reconcile_config_map = do
    instance ← gets (λ s. s.instance)
    let cm = make_config_map instance
    meta ← lift (r.set_controller_reference instance.meta cm.meta)
    found ← gets (λ s. r.client.config_maps.get meta.namespace meta.name s.world)
    store r.client.config_maps sync_config_map (λ stored. pure tt) (record cm { meta = meta }) found

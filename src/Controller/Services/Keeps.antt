-- ===== src/Controller/Services/Keeps.antt =====
-- Invariants over the reconciliations of the services, the disruption budget and the config map.
use zookeeper_operator.Prelude.{String}
use zookeeper_operator.Kube.Objects.{Service, PodDisruptionBudget}
use zookeeper_operator.Api.Types.{ZookeeperCluster}
use zookeeper_operator.Api.Status.{ZookeeperClusterStatus}
use zookeeper_operator.Controller.Interfaces.{
  not_found, failure, panic, Result, ok, err, Resource, Reconciler,
}
use zookeeper_operator.Controller.Interfaces.Guarded.{IsClosed, KeepsWorld, SparesServing, On}
use zookeeper_operator.Controller.Op.{Op}
use zookeeper_operator.Controller.Op.Keeps.{Keeps, keeps_rules}
use zookeeper_operator.Controller.Services.{
  store, note_endpoints, reconcile_service, reconcile_client_service, reconcile_headless_service,
  reconcile_admin_server_service, keep_budget, reconcile_pod_disruption_budget,
  reconcile_config_map,
}

module _ {W A : Type 0} (P : ZookeeperCluster → Type 0) {G : W → Type 0} (objects : Resource W A)
    (k : KeepsWorld G objects) (sync : A → A → A) (then_do : A → Op W (Unit {0}))
    (kept : (a : A) → Keeps P G (then_do a)) where
  store-Keeps :
      (wanted : A) (found : Result A) → Keeps P G (store objects sync then_do wanted found)
  unfolding store
  store-Keeps wanted (err (not_found t)) = search (keeps_rules, k.creates)
  store-Keeps wanted (err (failure t)) = search keeps_rules
  store-Keeps wanted (err panic) = search keeps_rules
  store-Keeps wanted (ok found) = search (keeps_rules, k.updates, kept)

module _ {W : Type 0} (r : Reconciler W) {J : String → ZookeeperClusterStatus → Type 0}
    {G : W → Type 0} (c : IsClosed J) (g : SparesServing r.client G) where
  reconcile_service-Keeps :
      (make : ZookeeperCluster → Service) (then_do : Service → Op W (Unit {0}))
      → ((svc : Service) → Keeps (On J) G (then_do svc))
      → Keeps (On J) G (reconcile_service r make then_do)
  unfolding reconcile_service
  reconcile_service-Keeps make then_do kept =
      search (keeps_rules, store-Keeps (On J) r.client.services g.services) depth 9

  pub reconcile_client_service-Keeps : Keeps (On J) G (reconcile_client_service r)
  unfolding reconcile_client_service note_endpoints
  reconcile_client_service-Keeps =
      reconcile_service-Keeps _ _ (λ svc. search (keeps_rules, c.notes_endpoints))

  pub reconcile_headless_service-Keeps : Keeps (On J) G (reconcile_headless_service r)
  unfolding reconcile_headless_service
  reconcile_headless_service-Keeps = reconcile_service-Keeps _ _ (λ svc. search keeps_rules)

  pub reconcile_admin_server_service-Keeps : Keeps (On J) G (reconcile_admin_server_service r)
  unfolding reconcile_admin_server_service
  reconcile_admin_server_service-Keeps = reconcile_service-Keeps _ _ (λ svc. search keeps_rules)

  keep_budget-Keeps :
      (pdb : PodDisruptionBudget) (found : Result PodDisruptionBudget)
      → Keeps (On J) G (keep_budget r pdb found)
  unfolding keep_budget
  keep_budget-Keeps pdb (err (not_found t)) = search (keeps_rules, g.budgets.creates)
  keep_budget-Keeps pdb (err (failure t)) = search keeps_rules
  keep_budget-Keeps pdb (err panic) = search keeps_rules
  keep_budget-Keeps pdb (ok found) = search keeps_rules

  pub reconcile_pod_disruption_budget-Keeps : Keeps (On J) G (reconcile_pod_disruption_budget r)
  unfolding reconcile_pod_disruption_budget
  reconcile_pod_disruption_budget-Keeps = search (keeps_rules, keep_budget-Keeps) depth 9

pub reconcile_config_map-Keeps :
    {W : Type 0} (r : Reconciler W) (P : ZookeeperCluster → Type 0) {G : W → Type 0}
    → KeepsWorld G r.client.config_maps
    → Keeps P G (reconcile_config_map r)
unfolding reconcile_config_map
reconcile_config_map-Keeps r P k =
    search (keeps_rules, store-Keeps P r.client.config_maps k) depth 9

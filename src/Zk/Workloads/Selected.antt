-- ===== src/Zk/Workloads/Selected.antt =====
-- The StatefulSet beside the services and the disruption budget.
use zookeeper_operator.Prelude.{some, [], ◌∷◌, ◌≡◌, refl}
use zookeeper_operator.Prelude.Dict.{get, entries}
use zookeeper_operator.Prelude.Maybe.{All, bind-All, All-value}
use zookeeper_operator.Kube.Objects.{StatefulSet}
use zookeeper_operator.Api.Types.{ZookeeperCluster}
use zookeeper_operator.Zk.Labels.{get-merge_labels}
use zookeeper_operator.Zk.Services.{
  make_service, make_client_service, make_admin_server_service, make_headless_service,
  make_pod_disruption_budget,
}
use zookeeper_operator.Zk.Pods.{make_zk_pod_spec}
use zookeeper_operator.Zk.Workloads.{volumes_of, make_stateful_set}

-- what ties a StatefulSet to the other objects of a cluster
pub record FitsTogether (z : ZookeeperCluster) (s : StatefulSet) : Type 0 where
  pub governed : s.spec.service_name ≡ (make_headless_service z).meta.name
  pub in_namespace : s.meta.namespace ≡ (make_headless_service z).meta.namespace
  pub labelled : get "app" (entries s.spec.template.meta.labels) ≡ some z.meta.name
  pub of_the_set : s.spec.selector ≡ ("app", z.meta.name) ∷ []
  pub of_the_client_service : (make_client_service z).spec.selector ≡ s.spec.selector
  pub of_the_headless_service : (make_headless_service z).spec.selector ≡ s.spec.selector
  pub of_the_admin_service : (make_admin_server_service z).spec.selector ≡ s.spec.selector
  pub of_the_budget : (make_pod_disruption_budget z).selector ≡ s.spec.selector

make_stateful_set-All : (z : ZookeeperCluster) → All (FitsTogether z) (make_stateful_set z)
unfolding make_stateful_set make_service make_client_service make_admin_server_service
    make_headless_service make_pod_disruption_budget get
make_stateful_set-All z = bind-All (FitsTogether z) (volumes_of z) _ (λ v.
    bind-All (FitsTogether z) (make_zk_pod_spec z v.extra_volumes) _ (λ p. record {
      governed = refl;
      in_namespace = refl;
      labelled = get-merge_labels "app" (
          entries z.spec.labels
          ∷ entries z.spec.pod.labels
          ∷ (("app", z.meta.name) ∷ ("kind", "ZookeeperMember") ∷ [])
          ∷ []);
      of_the_set = refl;
      of_the_client_service = refl;
      of_the_headless_service = refl;
      of_the_admin_service = refl;
      of_the_budget = refl;
    }))

-- Every StatefulSet that MakeStatefulSet returns is governed by the headless service of the same
-- cluster and namespace; the three services and the disruption budget select by the one label by
-- which it selects; and its pods carry that label, whatever labels the specification has.
pub make_stateful_set-FitsTogether :
    (z : ZookeeperCluster) (s : StatefulSet) → make_stateful_set z ≡ some s → FitsTogether z s
make_stateful_set-FitsTogether z s h =
    All-value (FitsTogether z) (make_stateful_set z) s h (make_stateful_set-All z)

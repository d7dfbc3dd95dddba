-- ===== src/Zk/Workloads/Total.antt =====
-- MakeStatefulSet after WithDefaults.
use zookeeper_operator.Prelude.{String, Bool, some, ◌≡◌, Bool-cases, inl, inr}
use zookeeper_operator.Prelude.Maybe.{Given, given, bind-Given, Given-value}
use zookeeper_operator.Kube.Objects.{StatefulSet}
use zookeeper_operator.Api.Types.{ZookeeperCluster}
use zookeeper_operator.Api.Spec.{is_ephemeral, with_defaults}
use zookeeper_operator.Api.Spec.Complete.{IsComplete, with_defaults-IsComplete}
use zookeeper_operator.Zk.Pods.Complete.{make_zk_pod_spec-Given}
use zookeeper_operator.Zk.Workloads.{volumes_of, make_stateful_set}

volumes_of-Given : (z : ZookeeperCluster) → IsComplete z.spec → Given (volumes_of z)
unfolding volumes_of
volumes_of-Given z c = elim (Bool-cases (is_ephemeral z.spec.storage_type)) [
  | inl h ↦ rw h (bind-Given _ _ (c.stored.when_ephemeral h) (λ e. given _))
  | inr h ↦ rw h (bind-Given _ _ (c.stored.when_persistent h) (λ p. given _))
]

make_stateful_set-Given : (z : ZookeeperCluster) → IsComplete z.spec → Given (make_stateful_set z)
unfolding make_stateful_set
make_stateful_set-Given z c =
    bind-Given (volumes_of z) _ (volumes_of-Given z c)
      (λ v. bind-Given _ _ (make_zk_pod_spec-Given z v.extra_volumes c.probes_set) (λ p. given _))

-- MakeStatefulSet of a cluster that WithDefaults has filled in follows no nil pointer: it returns a
-- StatefulSet, whatever the cluster was.
pub make_stateful_set_total :
    (is_zero : String → Bool) (z : ZookeeperCluster)
    → (s : StatefulSet) × (make_stateful_set (with_defaults is_zero z).0 ≡ some s)
make_stateful_set_total is_zero z =
    Given-value (make_stateful_set (with_defaults is_zero z).0)
      (make_stateful_set-Given (with_defaults is_zero z).0 (with_defaults-IsComplete is_zero z))

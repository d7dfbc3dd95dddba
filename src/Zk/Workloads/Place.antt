-- ===== src/Zk/Workloads/Place.antt =====
-- The kind and the labels of the StatefulSet.
use zookeeper_operator.Prelude.{some, ◌≡◌, refl}
use zookeeper_operator.Prelude.Maybe.{bind-All, All-value}
use zookeeper_operator.Kube.Objects.{StatefulSet}
use zookeeper_operator.Api.Types.{ZookeeperCluster}
use zookeeper_operator.Zk.Pods.{make_zk_pod_spec}
use zookeeper_operator.Zk.Workloads.{volumes_of, make_stateful_set}

-- what names the file that a StatefulSet is exported to
pub record HasPlace (z : ZookeeperCluster) (s : StatefulSet) : Type 0 where
  pub kind_is : s.type_meta.kind ≡ "StatefulSet"
  pub labels_are : s.meta.labels ≡ z.spec.labels

pub make_stateful_set-HasPlace :
    (z : ZookeeperCluster) (s : StatefulSet) → make_stateful_set z ≡ some s → HasPlace z s
unfolding make_stateful_set
make_stateful_set-HasPlace z s h = All-value (HasPlace z) (make_stateful_set z) s h (
    bind-All (HasPlace z) (volumes_of z) _ (λ v.
      bind-All (HasPlace z) (make_zk_pod_spec z v.extra_volumes) _
        (λ p. record { kind_is = refl; labels_are = refl })))

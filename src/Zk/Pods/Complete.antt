-- ===== src/Zk/Pods/Complete.antt =====
-- makeZkPodSpec where both probes are set.
use zookeeper_operator.Prelude.{Option, some, List}
use zookeeper_operator.Prelude.Maybe.{◌>>=◌, Given, given, bind-Given}
use zookeeper_operator.Kube.Pods.{Volume}
use zookeeper_operator.Api.Types.{Probes, ZookeeperCluster}
use zookeeper_operator.Api.Spec.Complete.{BothProbes, both}
use zookeeper_operator.Zk.Pods.{make_zk_pod_spec, pod_spec_of}

probes_steps :
    (z : ZookeeperCluster) (volumes : List Volume) (o : Option Probes)
    → BothProbes o
    → Given (
        o >>= λ p.
        p.readiness_probe >>= λ r. p.liveness_probe >>= λ l. some (pod_spec_of z volumes r l))
probes_steps z volumes o (both p r l) =
    bind-Given p.readiness_probe _ r (λ a. bind-Given p.liveness_probe _ l (λ b. given _))

pub make_zk_pod_spec-Given :
    (z : ZookeeperCluster) (volumes : List Volume)
    → BothProbes z.spec.probes
    → Given (make_zk_pod_spec z volumes)
unfolding make_zk_pod_spec
make_zk_pod_spec-Given z volumes h = probes_steps z volumes z.spec.probes h

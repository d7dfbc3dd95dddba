-- ===== src/Zk/Names.antt =====
-- pkg/zk/generators.go: the names of the headless service.
use zookeeper_operator.Prelude.{String, ◌&◌}
use zookeeper_operator.Api.Types.{ZookeeperCluster}
use zookeeper_operator.Api.Spec.{get_kubernetes_cluster_domain}

unfoldable pub headless_svc_name : ZookeeperCluster → String
headless_svc_name z = z.meta.name & "-headless"

unfoldable pub headless_domain : ZookeeperCluster → String
headless_domain z =
    headless_svc_name z & "." & z.meta.namespace & ".svc." & get_kubernetes_cluster_domain z

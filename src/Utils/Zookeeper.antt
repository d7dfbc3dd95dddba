-- ===== src/Utils/Zookeeper.antt =====
-- pkg/utils/zookeeper_util.go: where the ensemble and its metadata are found.
use zookeeper_operator.Prelude.{String, ◌&◌, pos}
use zookeeper_operator.Std.Strconv.{itoa}
use zookeeper_operator.Api.Types.{ZookeeperCluster}
use zookeeper_operator.Api.Ports.{listed, port_or, container_port_by_name}
use zookeeper_operator.Api.Spec.{get_client_service_name, get_kubernetes_cluster_domain}

abbrev pub zk_meta_root : String
zk_meta_root = "/zookeeper-operator"

-- the error of the look-up is not looked at
unfoldable pub get_zk_service_uri : ZookeeperCluster → String
get_zk_service_uri zoo =
    get_client_service_name zoo
    & "."
    & zoo.meta.namespace
    & ".svc."
    & get_kubernetes_cluster_domain zoo
    & ":"
    & itoa (port_or (pos 0) (container_port_by_name (listed zoo.spec.ports) "client"))

unfoldable pub get_meta_path : ZookeeperCluster → String
get_meta_path zoo = zk_meta_root & "/" & zoo.meta.name

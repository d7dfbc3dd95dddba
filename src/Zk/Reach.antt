-- ===== src/Zk/Reach.antt =====
-- The address at which the operator reaches the ensemble, beside the client service.
use zookeeper_operator.Prelude.{pos, ◌&◌, some, List, ◌≡◌, ap}
use zookeeper_operator.Std.Strconv.{itoa}
use zookeeper_operator.Kube.Pods.{ContainerPort}
use zookeeper_operator.Api.Types.{ZookeeperCluster}
use zookeeper_operator.Api.Ports.{port_or, container_port_by_name, service_port_by_name}
use zookeeper_operator.Api.Ports.Agree.{HasUniqueNames, zookeeper_ports_client}
use zookeeper_operator.Api.Spec.{get_kubernetes_cluster_domain}
use zookeeper_operator.Zk.Services.{make_service, make_client_service}
use zookeeper_operator.Utils.Zookeeper.{get_zk_service_uri}

-- Where no two ports of the specification have one name: the client service offers, under the name
-- "tcp-client", the port that the specification names for the client, and GetZkServiceUri is the
-- service's name, its namespace and the cluster domain, with that port.
pub get_zk_service_uri_lem :
    (z : ZookeeperCluster) (ps : List ContainerPort)
    → z.spec.ports ≡ some ps
    → HasUniqueNames ps
    → let svc = make_client_service z in
      let port = port_or (pos 0) (container_port_by_name ps "client") in
      (service_port_by_name svc.spec.ports "tcp-client"
        ≡ some (record { name = "tcp-client"; port = port }))
      × (get_zk_service_uri z
          ≡ svc.meta.name
            & "."
            & svc.meta.namespace
            & ".svc."
            & get_kubernetes_cluster_domain z
            & ":"
            & itoa port)
unfolding make_service make_client_service service_port_by_name get_zk_service_uri
get_zk_service_uri_lem z ps h u = (
  rw h (ap (λ n. some (record { name = "tcp-client"; port = n })) (zookeeper_ports_client ps u)),
  rw h,
)

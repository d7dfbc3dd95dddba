-- ===== src/Zk/Services.antt =====
-- pkg/zk/generators.go: the three services, the disruption budget and the service account.
use zookeeper_operator.Prelude.{
  String, ◌&◌, str_eq, Bool, true, false, ◌&&◌, not, Option, some, List, [], ◌∷◌, if◌then◌else◌,
}
use zookeeper_operator.Prelude.Dict.{Dict, put, entries}
use zookeeper_operator.Std.Strconv.{format_bool}
use zookeeper_operator.Std.Strings.{trim_space, has_suffix}
use zookeeper_operator.Kube.Meta.{no_meta}
use zookeeper_operator.Kube.Objects.{ServicePort, Service, PodDisruptionBudget, ServiceAccount}
use zookeeper_operator.Api.Types.{ZookeeperCluster}
use zookeeper_operator.Api.Ports.{zookeeper_ports}
use zookeeper_operator.Api.Spec.{get_client_service_name, get_admin_server_service_name}
use zookeeper_operator.Zk.Names.{headless_svc_name}
use zookeeper_operator.Zk.Labels.{merge_labels, copy_map}

abbrev pub external_dns_annotation_key : String
external_dns_annotation_key = "external-dns.alpha.kubernetes.io/hostname"

-- the host name under the trimmed domain, with a dot at its end
dns_name : String → String → String
dns_name name domain_name =
    if has_suffix domain_name "." then name & "." & domain_name else name & "." & domain_name & "."

unfoldable pub make_service :
    String → List ServicePort → Bool → Bool → Option Dict → ZookeeperCluster → Service
unfolding dns_name
make_service name ports cluster_ip external annotations z = record {
  type_meta = record { kind = "Service"; api_version = "v1" };
  meta = record no_meta {
    name = name;
    namespace = z.meta.namespace;
    labels = some (
        merge_labels (
          entries z.spec.labels
          ∷ (("app", z.meta.name) ∷ ("headless", format_bool (not cluster_ip)) ∷ [])
          ∷ []));
    annotations = some (
        if not cluster_ip && not (str_eq z.spec.domain_name "")
        then put external_dns_annotation_key (dns_name name (trim_space z.spec.domain_name))
            (copy_map (entries annotations))
        else copy_map (entries annotations));
  };
  spec = record {
    ports = ports;
    selector = ("app", z.meta.name) ∷ [];
    type = if external then "LoadBalancer" else "";
    cluster_ip = if not cluster_ip then "None" else "";
  };
  ingress_ips = [];
}

unfoldable pub make_client_service : ZookeeperCluster → Service
make_client_service z =
    make_service (get_client_service_name z)
      (record { name = "tcp-client"; port = (zookeeper_ports z.spec.ports).client } ∷ []) true false
      z.spec.client_service.annotations z

unfoldable pub make_admin_server_service : ZookeeperCluster → Service
make_admin_server_service z =
    make_service (get_admin_server_service_name z)
      (record { name = "tcp-admin-server"; port = (zookeeper_ports z.spec.ports).admin_server }
        ∷ [])
      true z.spec.admin_server_service.external z.spec.admin_server_service.annotations z

unfoldable pub make_headless_service : ZookeeperCluster → Service
make_headless_service z =
    let ports = zookeeper_ports z.spec.ports in
    make_service (headless_svc_name z)
      (record { name = "tcp-client"; port = ports.client }
        ∷ record { name = "tcp-quorum"; port = ports.quorum }
        ∷ record { name = "tcp-leader-election"; port = ports.leader }
        ∷ record { name = "tcp-metrics"; port = ports.metrics }
        ∷ record { name = "tcp-admin-server"; port = ports.admin_server }
        ∷ [])
      false false z.spec.headless_service.annotations z

unfoldable pub make_pod_disruption_budget : ZookeeperCluster → PodDisruptionBudget
make_pod_disruption_budget z = record {
  type_meta = record { kind = "PodDisruptionBudget"; api_version = "policy/v1" };
  meta = record no_meta {
    name = z.meta.name;
    namespace = z.meta.namespace;
    labels = z.spec.labels;
  };
  max_unavailable = z.spec.max_unavailable_replicas;
  selector = ("app", z.meta.name) ∷ [];
}

unfoldable pub make_service_account : ZookeeperCluster → ServiceAccount
make_service_account z = record {
  meta = record no_meta { name = z.spec.pod.service_account_name; namespace = z.meta.namespace };
  image_pull_secrets = z.spec.pod.image_pull_secrets;
}

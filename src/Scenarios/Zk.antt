-- ===== src/Scenarios/Zk.antt =====
-- Runs of the generators.
use zookeeper_operator.Prelude.{pos, false, ◌&◌, some, [], ◌∷◌, ◌≡◌, refl}
use zookeeper_operator.Std.Strconv.{itoa}
use zookeeper_operator.Kube.Objects.{StatefulSet}
use zookeeper_operator.Api.Ports.{service_port_by_name, container_port_by_name}
use zookeeper_operator.Api.Spec.{
  with_defaults, get_kubernetes_cluster_domain, get_client_service_name,
  get_admin_server_service_name,
}
use zookeeper_operator.Zk.Names.{headless_svc_name, headless_domain}
use zookeeper_operator.Api.Defaults.Ports.{default_ports}
use zookeeper_operator.Utils.Zookeeper.{get_zk_service_uri}
use zookeeper_operator.Zk.Services.{make_client_service}
use zookeeper_operator.Zk.Workloads.{make_stateful_set}
use zookeeper_operator.Zk.Workloads.Total.{make_stateful_set_total}
use zookeeper_operator.Zk.Workloads.Selected.{FitsTogether, make_stateful_set-FitsTogether}
use zookeeper_operator.Zk.Reach.{get_zk_service_uri_lem}
use zookeeper_operator.Zk.Config.{make_zk_config_string, make_zk_env_config_string}
use zookeeper_operator.Zk.Config.Reader.{read_settings}
use zookeeper_operator.Zk.Config.RoundTrip.{
  own_settings, environment, read_settings-make_zk_config_string,
  read_settings-make_zk_env_config_string,
}
use zookeeper_operator.Api.Types.{ZookeeperCluster}
use zookeeper_operator.Scenarios.Data.{bare, cluster, wanted, wanted_lem}

make_stateful_set_total_example :
    (s : StatefulSet) × (make_stateful_set (with_defaults (λ q. false) bare).0 ≡ some s)
make_stateful_set_total_example = make_stateful_set_total (λ q. false) bare

make_stateful_set-FitsTogether_example : FitsTogether cluster wanted
make_stateful_set-FitsTogether_example = make_stateful_set-FitsTogether cluster wanted wanted_lem

get_zk_service_uri_lem_example :
    let svc = make_client_service cluster in
    (service_port_by_name svc.spec.ports "tcp-client"
      ≡ some (record { name = "tcp-client"; port = pos 2181 }))
    × (get_zk_service_uri cluster
        ≡ svc.meta.name
          & "."
          & svc.meta.namespace
          & ".svc."
          & "cluster.local"
          & ":"
          & itoa (pos 2181))
unfolding container_port_by_name get_kubernetes_cluster_domain
get_zk_service_uri_lem_example =
    get_zk_service_uri_lem cluster default_ports refl (refl, (refl, (refl, (refl, (refl, tt)))))

abbrev tuned : ZookeeperCluster
tuned = record cluster {
  spec = record cluster.spec {
    conf = record cluster.spec.conf {
      additional_config = some (("tickTime", "a=b") ∷ ("secureClientPort", "2182") ∷ []);
    };
  };
}

read_settings-make_zk_config_string_example :
    read_settings (make_zk_config_string tuned)
    ≡ ("tickTime", "a=b") ∷ ("secureClientPort", "2182") ∷ own_settings tuned
read_settings-make_zk_config_string_example = read_settings-make_zk_config_string tuned (
  record { key_has_no_equals = refl; key_is_one_line = refl; value_is_one_line = refl },
  (record { key_has_no_equals = refl; key_is_one_line = refl; value_is_one_line = refl }, tt),
)

read_settings-make_zk_env_config_string_example :
    read_settings (make_zk_env_config_string cluster) ≡ environment cluster
unfolding headless_domain headless_svc_name get_client_service_name get_admin_server_service_name
    get_kubernetes_cluster_domain
read_settings-make_zk_env_config_string_example =
    read_settings-make_zk_env_config_string cluster (record {
      domain_is_one_line = refl;
      client_is_one_line = refl;
      admin_is_one_line = refl;
      name_is_one_line = refl;
    })

-- ===== src/Zk/Sync.antt =====
-- pkg/zk/synchronizers.go: what an update takes over from the wanted object.
use zookeeper_operator.Kube.Objects.{StatefulSet, Service, ConfigMap}

unfoldable pub sync_stateful_set : StatefulSet → StatefulSet → StatefulSet
sync_stateful_set curr next = record curr {
  spec = record curr.spec {
    replicas = next.spec.replicas;
    template = next.spec.template;
    update_strategy = next.spec.update_strategy;
  };
}

unfoldable pub sync_service : Service → Service → Service
sync_service curr next = record curr {
  spec = record curr.spec { ports = next.spec.ports; type = next.spec.type };
  meta = record curr.meta { annotations = next.meta.annotations };
}

unfoldable pub sync_config_map : ConfigMap → ConfigMap → ConfigMap
sync_config_map curr next = record curr { contents = next.contents; binary_data = next.binary_data }

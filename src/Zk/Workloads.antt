-- ===== src/Zk/Workloads.antt =====
-- pkg/zk/generators.go: MakeStatefulSet. `none` is the panic of a nil pointer.
pub mod Place
pub mod Total
pub mod Selected
use zookeeper_operator.Prelude.{String, Bool, Option, none, some, List, [], ◌∷◌, if◌then◌else◌, pos}
use zookeeper_operator.Prelude.Dict.{entries}
use zookeeper_operator.Prelude.Maybe.{◌>>=◌}
use zookeeper_operator.Kube.Json.{single}
use zookeeper_operator.Kube.Meta.{no_meta}
use zookeeper_operator.Kube.Pods.{Volume, PersistentVolumeClaim}
use zookeeper_operator.Kube.Objects.{StatefulSet}
use zookeeper_operator.Api.Types.{Persistence, Ephemeral, ZookeeperCluster}
use zookeeper_operator.Api.Spec.{is_ephemeral}
use zookeeper_operator.Zk.Labels.{merge_labels}
use zookeeper_operator.Zk.Names.{headless_svc_name}
use zookeeper_operator.Zk.Pods.{make_zk_pod_spec}

-- the two local slices that the storage type decides
record Volumes : Type 0 where
  extra_volumes : List Volume
  pvcs : List PersistentVolumeClaim

abbrev zk_data_volume : String
zk_data_volume = "data"

ephemeral_volumes : Ephemeral → Volumes
ephemeral_volumes e = record {
  extra_volumes =
      record { name = zk_data_volume; volume_source = single "emptyDir" e.empty_dir_volume_source }
      ∷ [];
  pvcs = [];
}

persistent_volumes : ZookeeperCluster → Persistence → Volumes
persistent_volumes z p = record {
  extra_volumes = [];
  pvcs =
      record {
        meta = record no_meta {
          name = zk_data_volume;
          labels = some (
              merge_labels
                (entries z.spec.labels ∷ (("app", z.meta.name) ∷ ("uid", z.meta.uid) ∷ []) ∷ []));
          annotations = p.annotations;
        };
        spec = p.persistent_volume_claim_spec;
      }
      ∷ [];
}

volumes_of : ZookeeperCluster → Option Volumes
unfolding ephemeral_volumes persistent_volumes
volumes_of z =
    if is_ephemeral z.spec.storage_type
    then (do e ← z.spec.ephemeral; some (ephemeral_volumes e))
    else (do p ← z.spec.persistence; some (persistent_volumes z p))

-- The labels are the specification's own map, not a copy: a later write to them is a write to the
-- specification (Controller.StatefulSets).
unfoldable pub make_stateful_set : ZookeeperCluster → Option StatefulSet
unfolding volumes_of
make_stateful_set z = do
  volumes ← volumes_of z
  pod_spec ← make_zk_pod_spec z volumes.extra_volumes
  some (record {
    type_meta = record { kind = "StatefulSet"; api_version = "apps/v1" };
    meta = record no_meta {
      name = z.meta.name;
      namespace = z.meta.namespace;
      labels = z.spec.labels;
    };
    spec = record {
      service_name = headless_svc_name z;
      replicas = some z.spec.replicas;
      selector = ("app", z.meta.name) ∷ [];
      update_strategy = "RollingUpdate";
      pod_management_policy = "OrderedReady";
      template = record {
        meta = record no_meta {
          generate_name = z.meta.name;
          labels = some (
              merge_labels (
                entries z.spec.labels
                ∷ entries z.spec.pod.labels
                ∷ (("app", z.meta.name) ∷ ("kind", "ZookeeperMember") ∷ [])
                ∷ []));
          annotations = z.spec.pod.annotations;
        };
        spec = pod_spec;
      };
      volume_claim_templates = volumes.pvcs;
    };
    status = record {
      replicas = pos 0;
      ready_replicas = pos 0;
      updated_replicas = pos 0;
      current_revision = "";
      update_revision = "";
    };
  })

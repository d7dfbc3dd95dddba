-- ===== src/Api/Copies/Whole.antt =====
-- The copies of a cluster and of a list of clusters are deep.
use zookeeper_operator.Kube.Copies.{Copies, AreDeep}
use zookeeper_operator.Memory.{pointer}
use zookeeper_operator.Memory.Fresh.{◌then◌, IsDeep, cells-IsDeep, pointer-IsDeep, elements-IsDeep}
use zookeeper_operator.Api.Copies.Deep.{
  deep_copy_into_status-IsDeep, deep_copy_into_admin_server_service-IsDeep,
  deep_copy_into_client_service-IsDeep, deep_copy_into_headless_service-IsDeep,
  deep_copy_into_config-IsDeep, deep_copy_probes-IsDeep, deep_copy_persistence-IsDeep,
  deep_copy_ephemeral-IsDeep, objects-IsDeep, deep_copy_into_pod-IsDeep,
}
use zookeeper_operator.Api.Copies.Clusters.{
  spec_form, deep_copy_into_spec, cluster_form, deep_copy_into_cluster, deep_copy_cluster,
  list_form, deep_copy_into_list, deep_copy_list,
}

module _ (copies : Copies) (deep : AreDeep copies) where
  deep_copy_into_spec-IsDeep : IsDeep spec_form (deep_copy_into_spec copies)
  unfolding spec_form deep_copy_into_spec
  deep_copy_into_spec-IsDeep = record {
    keeps = λ s n. simp (
      cells-IsDeep.keeps,
      (deep_copy_into_pod-IsDeep copies deep).keeps,
      deep_copy_into_admin_server_service-IsDeep.keeps,
      deep_copy_into_client_service-IsDeep.keeps,
      deep_copy_into_headless_service-IsDeep.keeps,
      (deep_copy_persistence-IsDeep copies deep).keeps,
      (deep_copy_ephemeral-IsDeep copies deep).keeps,
      deep_copy_into_config-IsDeep.keeps,
      (objects-IsDeep deep.container).keeps,
      (objects-IsDeep deep.volume).keeps,
      (objects-IsDeep deep.volume_mount).keeps,
      deep_copy_probes-IsDeep.keeps,
    );
    fresh = λ s n.
        cells-IsDeep.fresh s.labels n
        then cells-IsDeep.fresh s.ports _
        then (deep_copy_into_pod-IsDeep copies deep).fresh s.pod _
        then deep_copy_into_admin_server_service-IsDeep.fresh s.admin_server_service _
        then deep_copy_into_client_service-IsDeep.fresh s.client_service _
        then deep_copy_into_headless_service-IsDeep.fresh s.headless_service _
        then (deep_copy_persistence-IsDeep copies deep).fresh s.persistence _
        then (deep_copy_ephemeral-IsDeep copies deep).fresh s.ephemeral _
        then deep_copy_into_config-IsDeep.fresh s.conf _
        then (objects-IsDeep deep.container).fresh s.containers _
        then (objects-IsDeep deep.container).fresh s.init_containers _
        then (objects-IsDeep deep.volume).fresh s.volumes _
        then (objects-IsDeep deep.volume_mount).fresh s.volume_mounts _
        then deep_copy_probes-IsDeep.fresh s.probes _;
  }

  deep_copy_into_cluster-IsDeep : IsDeep cluster_form (deep_copy_into_cluster copies)
  unfolding cluster_form deep_copy_into_cluster
  deep_copy_into_cluster-IsDeep = record {
    keeps = λ z n. simp (
      deep.object_meta.keeps, deep_copy_into_spec-IsDeep.keeps, deep_copy_into_status-IsDeep.keeps,
    );
    fresh = λ z n.
        deep.object_meta.fresh z.meta n
        then deep_copy_into_spec-IsDeep.fresh z.spec _
        then deep_copy_into_status-IsDeep.fresh z.status _;
  }

  deep_copy_into_list-IsDeep : IsDeep list_form (deep_copy_into_list copies)
  unfolding list_form deep_copy_into_list
  deep_copy_into_list-IsDeep =
      let items = pointer-IsDeep (elements-IsDeep deep_copy_into_cluster-IsDeep) in
      record {
        keeps = λ l n. simp (deep.list_meta.keeps, items.keeps);
        fresh = λ l n. deep.list_meta.fresh l.meta n then items.fresh l.items _;
      }

  -- Where DeepCopyInto of the Kubernetes types is a deep copy: DeepCopy of a cluster, and of a list of
  -- clusters, reads as the original does, is nil exactly for nil, and holds none but addresses that
  -- were never given out, no one twice, through all of the specification and the status.
  pub deep_copy_cluster-IsDeep :
      IsDeep (pointer cluster_form) (deep_copy_cluster copies)
      × IsDeep (pointer list_form) (deep_copy_list copies)
  unfolding deep_copy_cluster deep_copy_list
  deep_copy_cluster-IsDeep =
      (pointer-IsDeep deep_copy_into_cluster-IsDeep, pointer-IsDeep deep_copy_into_list-IsDeep)

-- ===== src/Api/Copies/Deep.antt =====
-- The copies of the parts of a cluster are deep.
use zookeeper_operator.Memory.{pointer, copy_pointer, copy_elements}
use zookeeper_operator.Memory.Fresh.{◌then◌, IsDeep, cells-IsDeep, pointer-IsDeep, elements-IsDeep}
use zookeeper_operator.Kube.Copies.{foreign, CopyInto, Copies, AreDeep}
use zookeeper_operator.Api.Copies.{
  admin_server_service_form, deep_copy_into_admin_server_service, client_service_form,
  deep_copy_into_client_service, headless_service_form, deep_copy_into_headless_service,
  config_form, deep_copy_into_config, probes_form, deep_copy_into_probes, deep_copy_probes,
  persistence_form, deep_copy_into_persistence, deep_copy_persistence, ephemeral_form,
  deep_copy_into_ephemeral, deep_copy_ephemeral,
}
use zookeeper_operator.Api.Copies.Status.{
  members_form, deep_copy_into_members, status_form, deep_copy_into_status,
}
use zookeeper_operator.Api.Copies.Pods.{object_form, objects_form, pod_form, deep_copy_into_pod}

pub deep_copy_into_members-IsDeep : IsDeep members_form deep_copy_into_members
unfolding members_form deep_copy_into_members
deep_copy_into_members-IsDeep = record {
  keeps = λ m n. simp cells-IsDeep.keeps;
  fresh = λ m n. cells-IsDeep.fresh m.ready n then cells-IsDeep.fresh m.unready _;
}

pub deep_copy_into_status-IsDeep : IsDeep status_form deep_copy_into_status
unfolding status_form deep_copy_into_status
deep_copy_into_status-IsDeep = record {
  keeps = λ s n. simp (cells-IsDeep.keeps, deep_copy_into_members-IsDeep.keeps);
  fresh =
      λ s n. deep_copy_into_members-IsDeep.fresh s.members n then cells-IsDeep.fresh s.conditions _;
}

pub deep_copy_into_admin_server_service-IsDeep :
    IsDeep admin_server_service_form deep_copy_into_admin_server_service
unfolding admin_server_service_form deep_copy_into_admin_server_service
deep_copy_into_admin_server_service-IsDeep = record {
  keeps = λ p n. simp cells-IsDeep.keeps;
  fresh = λ p n. cells-IsDeep.fresh p.annotations n;
}

pub deep_copy_into_client_service-IsDeep : IsDeep client_service_form deep_copy_into_client_service
unfolding client_service_form deep_copy_into_client_service
deep_copy_into_client_service-IsDeep = record {
  keeps = λ p n. simp cells-IsDeep.keeps;
  fresh = λ p n. cells-IsDeep.fresh p.annotations n;
}

pub deep_copy_into_headless_service-IsDeep :
    IsDeep headless_service_form deep_copy_into_headless_service
unfolding headless_service_form deep_copy_into_headless_service
deep_copy_into_headless_service-IsDeep = record {
  keeps = λ p n. simp cells-IsDeep.keeps;
  fresh = λ p n. cells-IsDeep.fresh p.annotations n;
}

pub deep_copy_into_config-IsDeep : IsDeep config_form deep_copy_into_config
unfolding config_form deep_copy_into_config
deep_copy_into_config-IsDeep = record {
  keeps = λ p n. simp cells-IsDeep.keeps;
  fresh = λ p n. cells-IsDeep.fresh p.additional_config n;
}

deep_copy_into_probes-IsDeep : IsDeep probes_form deep_copy_into_probes
unfolding probes_form deep_copy_into_probes
deep_copy_into_probes-IsDeep = record {
  keeps = λ p n. simp cells-IsDeep.keeps;
  fresh = λ p n. cells-IsDeep.fresh p.readiness_probe n then cells-IsDeep.fresh p.liveness_probe _;
}

pub deep_copy_probes-IsDeep : IsDeep (pointer probes_form) deep_copy_probes
unfolding deep_copy_probes
deep_copy_probes-IsDeep = pointer-IsDeep deep_copy_into_probes-IsDeep

object-IsDeep :
    {V : Type 0} {copy : CopyInto V}
    → IsDeep foreign copy
    → IsDeep (object_form {V = V}) (copy_pointer copy)
object-IsDeep d = pointer-IsDeep d

pub objects-IsDeep :
    {V : Type 0} {copy : CopyInto V}
    → IsDeep foreign copy
    → IsDeep (objects_form {V = V}) (copy_pointer (copy_elements copy))
objects-IsDeep d = pointer-IsDeep (elements-IsDeep d)

module _ (copies : Copies) (deep : AreDeep copies) where
  deep_copy_into_persistence-IsDeep : IsDeep persistence_form (deep_copy_into_persistence copies)
  unfolding persistence_form deep_copy_into_persistence
  deep_copy_into_persistence-IsDeep = record {
    keeps = λ p n. simp (deep.claim_spec.keeps, cells-IsDeep.keeps);
    fresh = λ p n.
        deep.claim_spec.fresh p.persistent_volume_claim_spec n
        then cells-IsDeep.fresh p.annotations _;
  }

  pub deep_copy_persistence-IsDeep :
      IsDeep (pointer persistence_form) (deep_copy_persistence copies)
  unfolding deep_copy_persistence
  deep_copy_persistence-IsDeep = pointer-IsDeep deep_copy_into_persistence-IsDeep

  deep_copy_into_ephemeral-IsDeep : IsDeep ephemeral_form (deep_copy_into_ephemeral copies)
  unfolding ephemeral_form deep_copy_into_ephemeral
  deep_copy_into_ephemeral-IsDeep = record {
    keeps = λ e n. simp deep.empty_dir.keeps;
    fresh = λ e n. deep.empty_dir.fresh e.empty_dir_volume_source n;
  }

  pub deep_copy_ephemeral-IsDeep : IsDeep (pointer ephemeral_form) (deep_copy_ephemeral copies)
  unfolding deep_copy_ephemeral
  deep_copy_ephemeral-IsDeep = pointer-IsDeep deep_copy_into_ephemeral-IsDeep

  pub deep_copy_into_pod-IsDeep : IsDeep pod_form (deep_copy_into_pod copies)
  unfolding pod_form deep_copy_into_pod
  deep_copy_into_pod-IsDeep = record {
    keeps = λ p n. simp (
      cells-IsDeep.keeps,
      (object-IsDeep deep.affinity).keeps,
      (objects-IsDeep deep.topology_spread_constraint).keeps,
      deep.resources.keeps,
      (objects-IsDeep deep.toleration).keeps,
      (objects-IsDeep deep.env_var).keeps,
      (object-IsDeep deep.security_context).keeps,
    );
    fresh = λ p n.
        cells-IsDeep.fresh p.labels n
        then cells-IsDeep.fresh p.node_selector _
        then (object-IsDeep deep.affinity).fresh p.affinity _
        then (objects-IsDeep deep.topology_spread_constraint).fresh p.topology_spread_constraints _
        then deep.resources.fresh p.resources _
        then (objects-IsDeep deep.toleration).fresh p.tolerations _
        then (objects-IsDeep deep.env_var).fresh p.env _
        then cells-IsDeep.fresh p.annotations _
        then (object-IsDeep deep.security_context).fresh p.security_context _
        then cells-IsDeep.fresh p.image_pull_secrets _;
  }

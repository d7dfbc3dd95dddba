-- ===== src/Api/Copies.antt =====
-- api/v1beta1/zz_generated.deepcopy.go: the deep copies of the API's own types. A type with a pointer,
-- a map or a slice has a form in memory here; in the others, a copy is the value.
pub mod Status
pub mod Pods
pub mod Deep
pub mod Kept
pub mod Whole
pub mod Clusters
use zookeeper_operator.Prelude.{Bool, String, Option, none, some, List, ◌++◌}
use zookeeper_operator.Prelude.Dict.{Dict}
use zookeeper_operator.Kube.Json.{Json}
use zookeeper_operator.Kube.Pods.{PersistentVolumeClaimSpec}
use zookeeper_operator.Kube.Copies.{Foreign, foreign, Copies}
use zookeeper_operator.Api.Types.{
  ContainerImage, Probe, Probes, AdminServerServicePolicy, ClientServicePolicy,
  HeadlessServicePolicy, ZookeeperConfig, Persistence, Ephemeral,
}
use zookeeper_operator.Api.Ports.{Ports}
use zookeeper_operator.Memory.{
  Ref, Pointer, Alloc, Form, pure, ◌>>=◌, new, flat, pointer, cells, copy_pointer, copy_cells,
}

-- types without pointers
unfoldable pub deep_copy_into_image : ContainerImage → Alloc ContainerImage
deep_copy_into_image image = pure image

deep_copy_image : Pointer ContainerImage → Alloc (Pointer ContainerImage)
deep_copy_image = copy_pointer deep_copy_into_image

deep_copy_into_ports : Ports → Alloc Ports
deep_copy_into_ports ports = pure ports

deep_copy_ports : Pointer Ports → Alloc (Pointer Ports)
deep_copy_ports = copy_pointer deep_copy_into_ports

deep_copy_into_probe : Probe → Alloc Probe
deep_copy_into_probe probe = pure probe

deep_copy_probe : Pointer Probe → Alloc (Pointer Probe)
deep_copy_probe = copy_pointer deep_copy_into_probe

-- types with a map of annotations
pub record AdminServerServicePolicyMemory : Type 0 where
  pub annotations : Pointer Dict
  pub external : Bool

unfoldable pub admin_server_service_form :
    Form AdminServerServicePolicyMemory AdminServerServicePolicy
admin_server_service_form = record {
  addresses = λ p. cells.addresses p.annotations;
  value = λ p. record { annotations = cells.value p.annotations; external = p.external };
}

unfoldable pub deep_copy_into_admin_server_service :
    AdminServerServicePolicyMemory → Alloc AdminServerServicePolicyMemory
deep_copy_into_admin_server_service p = do
  annotations ← copy_cells p.annotations
  pure (record p { annotations = annotations })

deep_copy_admin_server_service :
    Pointer AdminServerServicePolicyMemory → Alloc (Pointer AdminServerServicePolicyMemory)
deep_copy_admin_server_service = copy_pointer deep_copy_into_admin_server_service

pub record ClientServicePolicyMemory : Type 0 where
  pub annotations : Pointer Dict

unfoldable pub client_service_form : Form ClientServicePolicyMemory ClientServicePolicy
client_service_form = record {
  addresses = λ p. cells.addresses p.annotations;
  value = λ p. record { annotations = cells.value p.annotations };
}

unfoldable pub deep_copy_into_client_service :
    ClientServicePolicyMemory → Alloc ClientServicePolicyMemory
deep_copy_into_client_service p = do
  annotations ← copy_cells p.annotations
  pure (record p { annotations = annotations })

deep_copy_client_service :
    Pointer ClientServicePolicyMemory → Alloc (Pointer ClientServicePolicyMemory)
deep_copy_client_service = copy_pointer deep_copy_into_client_service

pub record HeadlessServicePolicyMemory : Type 0 where
  pub annotations : Pointer Dict

unfoldable pub headless_service_form : Form HeadlessServicePolicyMemory HeadlessServicePolicy
headless_service_form = record {
  addresses = λ p. cells.addresses p.annotations;
  value = λ p. record { annotations = cells.value p.annotations };
}

unfoldable pub deep_copy_into_headless_service :
    HeadlessServicePolicyMemory → Alloc HeadlessServicePolicyMemory
deep_copy_into_headless_service p = do
  annotations ← copy_cells p.annotations
  pure (record p { annotations = annotations })

deep_copy_headless_service :
    Pointer HeadlessServicePolicyMemory → Alloc (Pointer HeadlessServicePolicyMemory)
deep_copy_headless_service = copy_pointer deep_copy_into_headless_service

-- ZookeeperConfig: `numbers` is the configuration without its map.
pub record ZookeeperConfigMemory : Type 0 where
  pub numbers : ZookeeperConfig
  pub additional_config : Pointer Dict

unfoldable pub config_form : Form ZookeeperConfigMemory ZookeeperConfig
config_form = record {
  addresses = λ c. cells.addresses c.additional_config;
  value = λ c. record c.numbers { additional_config = cells.value c.additional_config };
}

unfoldable pub deep_copy_into_config : ZookeeperConfigMemory → Alloc ZookeeperConfigMemory
deep_copy_into_config c = do
  additional_config ← copy_cells c.additional_config
  pure (record c { additional_config = additional_config })

deep_copy_config : Pointer ZookeeperConfigMemory → Alloc (Pointer ZookeeperConfigMemory)
deep_copy_config = copy_pointer deep_copy_into_config

pub record ProbesMemory : Type 0 where
  pub readiness_probe : Pointer Probe
  pub liveness_probe : Pointer Probe

unfoldable pub probes_form : Form ProbesMemory Probes
probes_form = record {
  addresses = λ p. cells.addresses p.readiness_probe ++ cells.addresses p.liveness_probe;
  value = λ p. record {
    readiness_probe = cells.value p.readiness_probe;
    liveness_probe = cells.value p.liveness_probe;
  };
}

-- `**out = **in` behind each pointer
unfoldable pub deep_copy_into_probes : ProbesMemory → Alloc ProbesMemory
deep_copy_into_probes p = do
  readiness_probe ← copy_cells p.readiness_probe
  liveness_probe ← copy_cells p.liveness_probe
  pure (record p { readiness_probe = readiness_probe; liveness_probe = liveness_probe })

unfoldable pub deep_copy_probes : Pointer ProbesMemory → Alloc (Pointer ProbesMemory)
deep_copy_probes = copy_pointer deep_copy_into_probes

pub record PersistenceMemory : Type 0 where
  pub volume_reclaim_policy : String
  pub persistent_volume_claim_spec : Foreign PersistentVolumeClaimSpec
  pub annotations : Pointer Dict

unfoldable pub persistence_form : Form PersistenceMemory Persistence
persistence_form = record {
  addresses =
      λ p. foreign.addresses p.persistent_volume_claim_spec ++ cells.addresses p.annotations;
  value = λ p. record {
    volume_reclaim_policy = p.volume_reclaim_policy;
    persistent_volume_claim_spec = foreign.value p.persistent_volume_claim_spec;
    annotations = cells.value p.annotations;
  };
}

pub record EphemeralMemory : Type 0 where
  pub empty_dir_volume_source : Foreign Json

unfoldable pub ephemeral_form : Form EphemeralMemory Ephemeral
ephemeral_form = record {
  addresses = λ e. foreign.addresses e.empty_dir_volume_source;
  value = λ e. record { empty_dir_volume_source = foreign.value e.empty_dir_volume_source };
}

module _ (copies : Copies) where
  unfoldable pub deep_copy_into_persistence : PersistenceMemory → Alloc PersistenceMemory
  deep_copy_into_persistence p = do
    claim_spec ← copies.claim_spec p.persistent_volume_claim_spec
    annotations ← copy_cells p.annotations
    pure (record p { persistent_volume_claim_spec = claim_spec; annotations = annotations })

  unfoldable pub deep_copy_persistence :
      Pointer PersistenceMemory → Alloc (Pointer PersistenceMemory)
  deep_copy_persistence = copy_pointer deep_copy_into_persistence

  unfoldable pub deep_copy_into_ephemeral : EphemeralMemory → Alloc EphemeralMemory
  deep_copy_into_ephemeral e = do
    empty_dir ← copies.empty_dir e.empty_dir_volume_source
    pure (record e { empty_dir_volume_source = empty_dir })

  unfoldable pub deep_copy_ephemeral : Pointer EphemeralMemory → Alloc (Pointer EphemeralMemory)
  deep_copy_ephemeral = copy_pointer deep_copy_into_ephemeral

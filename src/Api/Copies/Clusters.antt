-- ===== src/Api/Copies/Clusters.antt =====
-- The deep copies of the specification, the cluster and a list of clusters.
use zookeeper_operator.Prelude.{ℤ, Bool, String, Option, none, some, List, ◌++◌}
use zookeeper_operator.Prelude.Dict.{Dict}
use zookeeper_operator.Kube.Json.{Json}
use zookeeper_operator.Kube.Meta.{TypeMeta, ObjectMeta}
use zookeeper_operator.Kube.Pods.{ContainerPort, VolumeMount, Volume, Container}
use zookeeper_operator.Kube.Copies.{Foreign, foreign, Copies}
use zookeeper_operator.Api.Types.{ContainerImage, ZookeeperClusterSpec, ZookeeperCluster}
use zookeeper_operator.Api.Copies.{
  AdminServerServicePolicyMemory, admin_server_service_form, deep_copy_into_admin_server_service,
  ClientServicePolicyMemory, client_service_form, deep_copy_into_client_service,
  HeadlessServicePolicyMemory, headless_service_form, deep_copy_into_headless_service,
  ZookeeperConfigMemory, config_form, deep_copy_into_config, ProbesMemory, probes_form,
  deep_copy_probes, PersistenceMemory, persistence_form, deep_copy_persistence, EphemeralMemory,
  ephemeral_form, deep_copy_ephemeral,
}
use zookeeper_operator.Api.Copies.Status.{
  listed, ZookeeperClusterStatusMemory, status_form, deep_copy_into_status,
}
use zookeeper_operator.Api.Copies.Pods.{PodPolicyMemory, objects_form, pod_form, deep_copy_into_pod}
use zookeeper_operator.Memory.{
  Ref, Pointer, Alloc, Form, pure, ◌>>=◌, pointer, elements, cells, copy_pointer, copy_elements,
  copy_cells,
}

pub record ZookeeperClusterSpecMemory : Type 0 where
  pub image : ContainerImage
  pub labels : Pointer Dict
  pub replicas : ℤ
  pub ports : Pointer (List ContainerPort)
  pub pod : PodPolicyMemory
  pub admin_server_service : AdminServerServicePolicyMemory
  pub client_service : ClientServicePolicyMemory
  pub trigger_rolling_restart : Bool
  pub headless_service : HeadlessServicePolicyMemory
  pub storage_type : String
  pub persistence : Pointer PersistenceMemory
  pub ephemeral : Pointer EphemeralMemory
  pub conf : ZookeeperConfigMemory
  pub domain_name : String
  pub kubernetes_cluster_domain : String
  pub containers : Pointer (List (Foreign Container))
  pub init_containers : Pointer (List (Foreign Container))
  pub volumes : Pointer (List (Foreign Volume))
  pub volume_mounts : Pointer (List (Foreign VolumeMount))
  pub probes : Pointer ProbesMemory
  pub max_unavailable_replicas : ℤ

unfoldable pub spec_form : Form ZookeeperClusterSpecMemory ZookeeperClusterSpec
spec_form = record {
  addresses = λ s.
      cells.addresses s.labels
      ++ cells.addresses s.ports
      ++ pod_form.addresses s.pod
      ++ admin_server_service_form.addresses s.admin_server_service
      ++ client_service_form.addresses s.client_service
      ++ headless_service_form.addresses s.headless_service
      ++ (pointer persistence_form).addresses s.persistence
      ++ (pointer ephemeral_form).addresses s.ephemeral
      ++ config_form.addresses s.conf
      ++ objects_form.addresses s.containers
      ++ objects_form.addresses s.init_containers
      ++ objects_form.addresses s.volumes
      ++ objects_form.addresses s.volume_mounts
      ++ (pointer probes_form).addresses s.probes;
  value = λ s. record {
    image = s.image;
    labels = cells.value s.labels;
    replicas = s.replicas;
    ports = cells.value s.ports;
    pod = pod_form.value s.pod;
    admin_server_service = admin_server_service_form.value s.admin_server_service;
    client_service = client_service_form.value s.client_service;
    trigger_rolling_restart = s.trigger_rolling_restart;
    headless_service = headless_service_form.value s.headless_service;
    storage_type = s.storage_type;
    persistence = (pointer persistence_form).value s.persistence;
    ephemeral = (pointer ephemeral_form).value s.ephemeral;
    conf = config_form.value s.conf;
    domain_name = s.domain_name;
    kubernetes_cluster_domain = s.kubernetes_cluster_domain;
    containers = listed (objects_form.value s.containers);
    init_containers = objects_form.value s.init_containers;
    volumes = listed (objects_form.value s.volumes);
    volume_mounts = listed (objects_form.value s.volume_mounts);
    probes = (pointer probes_form).value s.probes;
    max_unavailable_replicas = s.max_unavailable_replicas;
  };
}

pub record ZookeeperClusterMemory : Type 0 where
  pub type_meta : TypeMeta
  pub meta : Foreign ObjectMeta
  pub spec : ZookeeperClusterSpecMemory
  pub status : ZookeeperClusterStatusMemory

unfoldable pub cluster_form : Form ZookeeperClusterMemory (TypeMeta × ZookeeperCluster)
cluster_form = record {
  addresses =
      λ z. foreign.addresses z.meta ++ spec_form.addresses z.spec ++ status_form.addresses z.status;
  value = λ z. (
    z.type_meta,
    record {
      meta = foreign.value z.meta;
      spec = spec_form.value z.spec;
      status = status_form.value z.status;
    },
  );
}

-- a list of clusters with its metadata
pub record ZookeeperClusterList : Type 0 where
  pub type_meta : TypeMeta
  pub meta : Json
  pub items : Option (List (TypeMeta × ZookeeperCluster))

pub record ZookeeperClusterListMemory : Type 0 where
  pub type_meta : TypeMeta
  pub meta : Foreign Json
  pub items : Pointer (List ZookeeperClusterMemory)

unfoldable pub list_form : Form ZookeeperClusterListMemory ZookeeperClusterList
list_form = record {
  addresses = λ l. foreign.addresses l.meta ++ (pointer (elements cluster_form)).addresses l.items;
  value = λ l. record {
    type_meta = l.type_meta;
    meta = foreign.value l.meta;
    items = (pointer (elements cluster_form)).value l.items;
  };
}

module _ (copies : Copies) where
  unfoldable pub deep_copy_into_spec : ZookeeperClusterSpecMemory → Alloc ZookeeperClusterSpecMemory
  deep_copy_into_spec s = do
    labels ← copy_cells s.labels
    ports ← copy_cells s.ports
    pod ← deep_copy_into_pod copies s.pod
    admin ← deep_copy_into_admin_server_service s.admin_server_service
    client ← deep_copy_into_client_service s.client_service
    headless ← deep_copy_into_headless_service s.headless_service
    persistence ← deep_copy_persistence copies s.persistence
    ephemeral ← deep_copy_ephemeral copies s.ephemeral
    conf ← deep_copy_into_config s.conf
    containers ← copy_pointer (copy_elements copies.container) s.containers
    init_containers ← copy_pointer (copy_elements copies.container) s.init_containers
    volumes ← copy_pointer (copy_elements copies.volume) s.volumes
    volume_mounts ← copy_pointer (copy_elements copies.volume_mount) s.volume_mounts
    probes ← deep_copy_probes s.probes
    pure (record s {
      labels = labels;
      ports = ports;
      pod = pod;
      admin_server_service = admin;
      client_service = client;
      headless_service = headless;
      persistence = persistence;
      ephemeral = ephemeral;
      conf = conf;
      containers = containers;
      init_containers = init_containers;
      volumes = volumes;
      volume_mounts = volume_mounts;
      probes = probes;
    })

  deep_copy_spec : Pointer ZookeeperClusterSpecMemory → Alloc (Pointer ZookeeperClusterSpecMemory)
  deep_copy_spec = copy_pointer deep_copy_into_spec

  unfoldable pub deep_copy_into_cluster : ZookeeperClusterMemory → Alloc ZookeeperClusterMemory
  deep_copy_into_cluster z = do
    meta ← copies.object_meta z.meta
    spec ← deep_copy_into_spec z.spec
    status ← deep_copy_into_status z.status
    pure (record z { meta = meta; spec = spec; status = status })

  unfoldable pub deep_copy_cluster :
      Pointer ZookeeperClusterMemory → Alloc (Pointer ZookeeperClusterMemory)
  deep_copy_cluster = copy_pointer deep_copy_into_cluster

  unfoldable pub deep_copy_into_list : ZookeeperClusterListMemory → Alloc ZookeeperClusterListMemory
  deep_copy_into_list l = do
    meta ← copies.list_meta l.meta
    items ← copy_pointer (copy_elements deep_copy_into_cluster) l.items
    pure (record l { meta = meta; items = items })

  unfoldable pub deep_copy_list :
      Pointer ZookeeperClusterListMemory → Alloc (Pointer ZookeeperClusterListMemory)
  deep_copy_list = copy_pointer deep_copy_into_list

-- runtime.Object: nil, or a pointer to one of the two types that are registered
pub data Object : Type 0 where
  no_object : Object
  cluster : Ref ZookeeperClusterMemory → Object
  clusters : Ref ZookeeperClusterListMemory → Object

object_of_cluster : Pointer ZookeeperClusterMemory → Object
object_of_cluster none = no_object
object_of_cluster (some c) = cluster c

object_of_list : Pointer ZookeeperClusterListMemory → Object
object_of_list none = no_object
object_of_list (some c) = clusters c

module _ (copies : Copies) where
  deep_copy_object_cluster : Pointer ZookeeperClusterMemory → Alloc Object
  unfolding deep_copy_cluster object_of_cluster
  deep_copy_object_cluster z = do c ← deep_copy_cluster copies z; pure (object_of_cluster c)

  deep_copy_object_list : Pointer ZookeeperClusterListMemory → Alloc Object
  unfolding deep_copy_list object_of_list
  deep_copy_object_list l = do c ← deep_copy_list copies l; pure (object_of_list c)

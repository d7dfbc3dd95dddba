-- ===== src/Kube/Pods.antt =====
-- corev1: containers, volumes and pod specifications.
use zookeeper_operator.Prelude.{ℤ, String, Bool, Option, List}
use zookeeper_operator.Prelude.Dict.{Dict}
use zookeeper_operator.Kube.Json.{Json}
use zookeeper_operator.Kube.Meta.{ObjectMeta}

-- `other` holds the fields that the program does not name.
pub record ContainerPort : Type 0 where
  pub name : String
  pub container_port : ℤ  -- int32
  pub other : Json

pub record EnvVar : Type 0 where
  pub name : String
  pub source : Json  -- the value, or where it is taken from

pub record VolumeMount : Type 0 where
  pub name : String
  pub mount_path : String
  pub other : Json

pub record Volume : Type 0 where
  pub name : String
  pub volume_source : Json

-- v1.Probe with an exec action
pub record ExecProbe : Type 0 where
  pub initial_delay_seconds : ℤ
  pub period_seconds : ℤ
  pub timeout_seconds : ℤ
  pub failure_threshold : ℤ
  pub success_threshold : ℤ
  pub command : List String

-- v1.ResourceRequirements; `none` is a nil list
pub record ResourceRequirements : Type 0 where
  pub limits : Option Json
  pub requests : Option Json

pub record Container : Type 0 where
  pub name : String
  pub image : String
  pub ports : Option (List ContainerPort)
  pub env : List EnvVar
  pub image_pull_policy : String
  pub readiness_probe : Option ExecProbe
  pub liveness_probe : Option ExecProbe
  pub volume_mounts : List VolumeMount
  pub pre_stop : List String  -- the command of the lifecycle's PreStop handler
  pub command : List String
  pub resources : ResourceRequirements
  pub other : Json

pub record PodSpec : Type 0 where
  pub containers : List Container
  pub init_containers : Option (List Container)
  pub volumes : List Volume
  pub affinity : Option Json
  pub topology_spread_constraints : Json
  pub security_context : Option Json
  pub node_selector : Json
  pub tolerations : Json
  pub termination_grace_period_seconds : ℤ
  pub service_account_name : String

pub record PodTemplate : Type 0 where
  pub meta : ObjectMeta
  pub spec : PodSpec

-- v1.PersistentVolumeClaimSpec; `requests` maps a resource's name to its quantity's text
pub record PersistentVolumeClaimSpec : Type 0 where
  pub access_modes : List String
  pub requests : Dict
  pub other : Json

pub record PersistentVolumeClaim : Type 0 where
  pub meta : ObjectMeta
  pub spec : PersistentVolumeClaimSpec

-- A listed pod: its name and, for each container, whether it is ready.
pub record Pod : Type 0 where
  pub meta : ObjectMeta
  pub containers_ready : List Bool
  pub reason : String  -- Status.Reason

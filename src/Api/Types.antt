-- ===== src/Api/Types.antt =====
-- api/v1beta1/zookeepercluster_types.go: the specification of a cluster. A pointer, a map or a slice
-- that the code compares with nil is an `Option`.
use zookeeper_operator.Prelude.{ℤ, String, Bool, Option, List}
use zookeeper_operator.Prelude.Dict.{Dict}
use zookeeper_operator.Kube.Json.{Json}
use zookeeper_operator.Kube.Meta.{ObjectMeta}
use zookeeper_operator.Kube.Pods.{
  ContainerPort, EnvVar, VolumeMount, Volume, Container, ResourceRequirements,
  PersistentVolumeClaimSpec,
}
use zookeeper_operator.Api.Status.{ZookeeperClusterStatus}

pub record ContainerImage : Type 0 where
  pub repository : String
  pub tag : String
  pub pull_policy : String

pub record Probe : Type 0 where
  pub initial_delay_seconds : ℤ
  pub period_seconds : ℤ
  pub failure_threshold : ℤ
  pub success_threshold : ℤ
  pub timeout_seconds : ℤ

pub record Probes : Type 0 where
  pub readiness_probe : Option Probe
  pub liveness_probe : Option Probe

pub record PodPolicy : Type 0 where
  pub labels : Option Dict
  pub node_selector : Json
  pub affinity : Option Json
  pub topology_spread_constraints : Json
  pub resources : ResourceRequirements
  pub tolerations : Json
  pub env : List EnvVar
  pub annotations : Option Dict
  pub security_context : Option Json
  pub termination_grace_period_seconds : ℤ  -- int64
  pub service_account_name : String
  pub image_pull_secrets : List String

pub record AdminServerServicePolicy : Type 0 where
  pub annotations : Option Dict
  pub external : Bool

pub record ClientServicePolicy : Type 0 where
  pub annotations : Option Dict

pub record HeadlessServicePolicy : Type 0 where
  pub annotations : Option Dict

pub record ZookeeperConfig : Type 0 where
  pub init_limit : ℤ
  pub tick_time : ℤ
  pub sync_limit : ℤ
  pub global_outstanding_limit : ℤ
  pub pre_alloc_size : ℤ
  pub snap_count : ℤ
  pub commit_log_count : ℤ
  pub snap_size_limit_in_kb : ℤ
  pub max_cnxns : ℤ
  pub max_client_cnxns : ℤ
  pub min_session_timeout : ℤ
  pub max_session_timeout : ℤ
  pub auto_purge_snap_retain_count : ℤ
  pub auto_purge_purge_interval : ℤ
  pub quorum_listen_on_all_ips : Bool
  pub additional_config : Option Dict

pub record Persistence : Type 0 where
  pub volume_reclaim_policy : String
  pub persistent_volume_claim_spec : PersistentVolumeClaimSpec
  pub annotations : Option Dict

pub record Ephemeral : Type 0 where
  pub empty_dir_volume_source : Json

pub record ZookeeperClusterSpec : Type 0 where
  pub image : ContainerImage
  pub labels : Option Dict
  pub replicas : ℤ  -- int32
  pub ports : Option (List ContainerPort)
  pub pod : PodPolicy
  pub admin_server_service : AdminServerServicePolicy
  pub client_service : ClientServicePolicy
  pub trigger_rolling_restart : Bool
  pub headless_service : HeadlessServicePolicy
  pub storage_type : String
  pub persistence : Option Persistence
  pub ephemeral : Option Ephemeral
  pub conf : ZookeeperConfig
  pub domain_name : String
  pub kubernetes_cluster_domain : String
  pub containers : List Container
  pub init_containers : Option (List Container)
  pub volumes : List Volume
  pub volume_mounts : List VolumeMount
  pub probes : Option Probes
  pub max_unavailable_replicas : ℤ  -- int32

pub record ZookeeperCluster : Type 0 where
  pub meta : ObjectMeta
  pub spec : ZookeeperClusterSpec
  pub status : ZookeeperClusterStatus

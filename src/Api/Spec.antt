-- ===== src/Api/Spec.antt =====
-- api/v1beta1/zookeepercluster_types.go: `withDefaults` of the whole specification, WithDefaults, and
-- the small methods of ZookeeperCluster.
pub mod Bounds
pub mod Settle
pub mod Complete
use zookeeper_operator.Prelude.{
  ℤ, pos, eq_ℤ, ltb_ℤ, String, str_eq, ◌&◌, Bool, true, false, ◌||◌, Option, none, some, List, [],
  ◌∷◌, if◌then◌else◌,
}
use zookeeper_operator.Std.Strings.{equal_fold}
use zookeeper_operator.Kube.Json.{empty_object}
use zookeeper_operator.Kube.Pods.{ContainerPort, PersistentVolumeClaimSpec}
use zookeeper_operator.Api.Types.{
  ContainerImage, Probes, Persistence, Ephemeral, ZookeeperClusterSpec, ZookeeperCluster,
}
use zookeeper_operator.Api.Defaults.{
  image_with_defaults, conf_with_defaults, probes_with_defaults, labels_with_defaults,
  pod_with_defaults, persistence_with_defaults,
}
use zookeeper_operator.Api.Defaults.Ports.{ports_with_defaults}

-- the fields that the block on the storage reads and writes
pub record Storage : Type 0 where
  pub storage_type : String
  pub persistence : Option Persistence
  pub ephemeral : Option Ephemeral

abbrev pub is_ephemeral : String → Bool
is_ephemeral storage_type = equal_fold storage_type "ephemeral"

-- &Persistence{}
abbrev no_persistence : Persistence
no_persistence = record {
  volume_reclaim_policy = "";
  persistent_volume_claim_spec = record { access_modes = []; requests = []; other = empty_object };
  annotations = none;
}

-- &Probes{}
abbrev no_probes : Probes
no_probes = record { readiness_probe = none; liveness_probe = none }

probes_of : Option Probes → Probes × Bool
probes_of none = let (p, changed) = probes_with_defaults no_probes in (p, true)
probes_of (some probes) = probes_with_defaults probes

-- `if s.MaxUnavailableReplicas < 1 { … }`
at_least_one : ℤ → ℤ × Bool
at_least_one n = if ltb_ℤ n (pos 1) then (pos 1, true) else (n, false)

-- `if s.Replicas == 0 { … }`
fill_replicas : ℤ → ℤ × Bool
fill_replicas n = if eq_ℤ n (pos 0) then (pos 3, true) else (n, false)

module _ (is_zero : String → Bool) where
  pub with_ephemeral : Storage → Option Ephemeral → Storage × Bool
  with_ephemeral s none =
      (record s { ephemeral = some (record { empty_dir_volume_source = empty_object }) }, true)
  with_ephemeral s (some e) = (s, false)

  pub with_persistence : Storage → Option Persistence → Storage × Bool
  with_persistence s none =
      let (p, changed) = persistence_with_defaults is_zero no_persistence in
      (record s { storage_type = "persistence"; persistence = some p }, true)
  with_persistence s (some found) =
      let (p, changed) = persistence_with_defaults is_zero found in
      (
        record s {
          storage_type = if changed then "persistence" else s.storage_type;
          persistence = some p;
        },
        changed,
      )

  pub storage_with_defaults : Storage → Storage × Bool
  unfolding with_ephemeral with_persistence
  storage_with_defaults s =
      if is_ephemeral s.storage_type
      then with_ephemeral s s.ephemeral
      else with_persistence s s.persistence

  -- `name` is z.GetName()
  unfoldable pub spec_with_defaults : String → ZookeeperClusterSpec → ZookeeperClusterSpec × Bool
  unfolding storage_with_defaults probes_of at_least_one fill_replicas
  spec_with_defaults name s =
      let (image, c₁) = image_with_defaults s.image in
      let (conf, c₂) = conf_with_defaults s.conf in
      let (replicas, c₃) = fill_replicas s.replicas in
      let (probes, c₄) = probes_of s.probes in
      let (ports, c₅) = ports_with_defaults s.ports in
      let (labels, c₆) = labels_with_defaults name s.labels in
      let (pod, c₇) = pod_with_defaults name s.pod in
      let (storage, c₈) = storage_with_defaults (record {
        storage_type = s.storage_type;
        persistence = s.persistence;
        ephemeral = s.ephemeral;
      }) in
      let (max_unavailable, c₉) = at_least_one s.max_unavailable_replicas in
      (
        record s {
          image = image;
          conf = conf;
          replicas = replicas;
          probes = some probes;
          ports = some ports;
          labels = labels;
          pod = pod;
          storage_type = storage.storage_type;
          persistence = storage.persistence;
          ephemeral = storage.ephemeral;
          max_unavailable_replicas = max_unavailable;
        },
        c₁ || c₂ || c₃ || c₄ || c₅ || c₆ || c₇ || c₈ || c₉,
      )

  -- WithDefaults
  unfoldable pub with_defaults : ZookeeperCluster → ZookeeperCluster × Bool
  with_defaults z =
      let (spec, changed) = spec_with_defaults z.meta.name z.spec in
      (record z { spec = spec }, changed)

unfoldable pub config_map_name : ZookeeperCluster → String
config_map_name z = z.meta.name & "-configmap"

unfoldable pub get_kubernetes_cluster_domain : ZookeeperCluster → String
get_kubernetes_cluster_domain z =
    if str_eq z.spec.kubernetes_cluster_domain ""
    then "cluster.local"
    else z.spec.kubernetes_cluster_domain

unfoldable pub get_client_service_name : ZookeeperCluster → String
get_client_service_name z = z.meta.name & "-client"

unfoldable pub get_admin_server_service_name : ZookeeperCluster → String
get_admin_server_service_name z = z.meta.name & "-admin-server"

unfoldable pub get_trigger_rolling_restart : ZookeeperCluster → Bool
get_trigger_rolling_restart z = z.spec.trigger_rolling_restart

unfoldable pub set_trigger_rolling_restart : Bool → ZookeeperCluster → ZookeeperCluster
set_trigger_rolling_restart val z = record z {
  spec = record z.spec { trigger_rolling_restart = val };
}

-- ToString of ContainerImage
unfoldable pub image_to_string : ContainerImage → String
image_to_string c = c.repository & ":" & c.tag

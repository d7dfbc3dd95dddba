-- ===== src/Zk/Pods.antt =====
-- pkg/zk/generators.go: the pods of the ensemble. A pointer that the code follows without a test is
-- an `Option`, and `none` of the result is the panic of a nil pointer.
pub mod Complete
use zookeeper_operator.Prelude.{
  ℤ, pos, String, Bool, true, false, ◌||◌, Option, none, some, List, [], ◌∷◌, ◌++◌, if◌then◌else◌,
}
use zookeeper_operator.Prelude.Dict.{is_some}
use zookeeper_operator.Prelude.Maybe.{◌>>=◌}
use zookeeper_operator.Kube.Json.{
  Json, bool, number, text, object, field, end, empty_object, is_empty_object, single,
}
use zookeeper_operator.Kube.Pods.{
  EnvVar, VolumeMount, Volume, ExecProbe, ResourceRequirements, Container, PodSpec,
}
use zookeeper_operator.Api.Types.{Probe, Probes, PodPolicy, ZookeeperCluster}
use zookeeper_operator.Api.Spec.{config_map_name, image_to_string}

-- the fields of the readiness probe
readiness : Probe → ExecProbe
readiness p = record {
  initial_delay_seconds = p.initial_delay_seconds;
  period_seconds = p.period_seconds;
  timeout_seconds = p.timeout_seconds;
  failure_threshold = p.failure_threshold;
  success_threshold = p.success_threshold;
  command = "zookeeperReady.sh" ∷ [];
}

-- the liveness probe's success threshold is not taken over
liveness : Probe → ExecProbe
liveness p = record {
  initial_delay_seconds = p.initial_delay_seconds;
  period_seconds = p.period_seconds;
  timeout_seconds = p.timeout_seconds;
  failure_threshold = p.failure_threshold;
  success_threshold = pos 0;
  command = "zookeeperLive.sh" ∷ [];
}

abbrev envoy_status : EnvVar
envoy_status = record {
  name = "ENVOY_SIDECAR_STATUS";
  source = single "valueFrom" (
      single "fieldRef"
        (single "fieldPath" (text "metadata.annotations['sidecar.istio.io/status']")));
}

-- `if Limits != nil || Requests != nil`
abbrev given_resources : ResourceRequirements → ResourceRequirements
given_resources r =
    if is_some r.limits || is_some r.requests then r else record { limits = none; requests = none }

zk_container : ZookeeperCluster → Probe → Probe → Container
unfolding readiness liveness
zk_container z ready live = record {
  name = "zookeeper";
  image = image_to_string z.spec.image;
  ports = z.spec.ports;
  env = envoy_status ∷ z.spec.pod.env;
  image_pull_policy = z.spec.image.pull_policy;
  readiness_probe = some (readiness ready);
  liveness_probe = some (liveness live);
  volume_mounts =
      z.spec.volume_mounts
      ++ (record { name = "data"; mount_path = "/data"; other = empty_object }
          ∷ record { name = "conf"; mount_path = "/conf"; other = empty_object }
          ∷ []);
  pre_stop = "zookeeperTeardown.sh" ∷ [];
  command = "/usr/local/bin/zookeeperStart.sh" ∷ [];
  resources = given_resources z.spec.pod.resources;
  other = empty_object;
}

-- the zookeeper user of the image
abbrev zookeeper_uid : ℤ
zookeeper_uid = pos 1000

pub default_pod_security_context : Json
default_pod_security_context = object (
    field "runAsNonRoot" (bool true) (
      field "runAsUser" (number zookeeper_uid) (
        field "runAsGroup" (number zookeeper_uid) (
          field "fsGroup" (number zookeeper_uid)
            (field "fsGroupChangePolicy" (text "OnRootMismatch") end)))))

-- an absent context and an empty one are replaced
security_context_of : Option Json → Json
security_context_of none = default_pod_security_context
security_context_of (some sc) = if is_empty_object sc then default_pod_security_context else sc

abbrev conf_volume : ZookeeperCluster → Volume
conf_volume z = record {
  name = "conf";
  volume_source = single "configMap" (single "name" (text (config_map_name z)));
}

pod_spec_of : ZookeeperCluster → List Volume → Probe → Probe → PodSpec
unfolding zk_container security_context_of
pod_spec_of z volumes ready live = record {
  containers = z.spec.containers ++ zk_container z ready live ∷ [];
  init_containers = z.spec.init_containers;
  volumes = z.spec.volumes ++ (volumes ++ conf_volume z ∷ []);
  affinity = z.spec.pod.affinity;
  topology_spread_constraints = z.spec.pod.topology_spread_constraints;
  security_context = some (security_context_of z.spec.pod.security_context);
  node_selector = z.spec.pod.node_selector;
  tolerations = z.spec.pod.tolerations;
  termination_grace_period_seconds = z.spec.pod.termination_grace_period_seconds;
  service_account_name = z.spec.pod.service_account_name;
}

-- makeZkPodSpec
unfoldable pub make_zk_pod_spec : ZookeeperCluster → List Volume → Option PodSpec
unfolding pod_spec_of
make_zk_pod_spec z volumes = do
  probes ← z.spec.probes
  ready ← probes.readiness_probe
  live ← probes.liveness_probe
  some (pod_spec_of z volumes ready live)

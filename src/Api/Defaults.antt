-- ===== src/Api/Defaults.antt =====
-- api/v1beta1/zookeepercluster_types.go: the `withDefaults` methods. Each returns the receiver after
-- the call and whether the code reports a change. In `withDefaults` of the specification `s` points
-- to `z.Spec`, so the two are one value here; `name` is z.GetName().
pub mod Ports
pub mod Settle
use zookeeper_operator.Prelude.{
  ℕ, ℤ, pos, eq_ℤ, ltb_ℤ, scale_int, String, str_eq, Bool, true, false, ◌&&◌, ◌||◌, not, Option,
  none, some, List, [], ◌∷◌, if◌then◌else◌,
}
use zookeeper_operator.Prelude.Dict.{Dict, get, put, has, entries}
use zookeeper_operator.Kube.Json.{
  Json, number, text, object, field, end, array, cons, nil, single, one,
}
use zookeeper_operator.Kube.Pods.{PersistentVolumeClaimSpec}
use zookeeper_operator.Api.Constants.{
  default_zk_container_repository, default_zk_container_version, default_zk_container_policy,
  default_termination_grace_period, default_zookeeper_cache_volume_size,
  default_readiness_probe_initial_delay_seconds, default_readiness_probe_period_seconds,
  default_readiness_probe_failure_threshold, default_readiness_probe_success_threshold,
  default_readiness_probe_timeout_seconds, default_liveness_probe_initial_delay_seconds,
  default_liveness_probe_period_seconds, default_liveness_probe_failure_threshold,
  default_liveness_probe_timeout_seconds,
}
use zookeeper_operator.Api.Types.{
  ContainerImage, Probe, Probes, PodPolicy, ZookeeperConfig, Persistence,
}

-- `if v == "" { changed = true; v = d }`
unfoldable pub is_blank : String → Bool
is_blank v = str_eq v ""

unfoldable pub fill_text : String → String → String
fill_text v d = if is_blank v then d else v

unfoldable pub image_with_defaults : ContainerImage → ContainerImage × Bool
image_with_defaults c = (
  record {
    repository = fill_text c.repository default_zk_container_repository;
    tag = fill_text c.tag default_zk_container_version;
    pull_policy = fill_text c.pull_policy default_zk_container_policy;
  },
  is_blank c.repository || is_blank c.tag || is_blank c.pull_policy,
)

-- `if v == 0 { changed = true; v = d }`
unfoldable pub is_unset : ℤ → Bool
is_unset v = eq_ℤ v (pos 0)

unfoldable pub fill : ℤ → ℤ → ℤ
unfolding is_unset
fill v d = if is_unset v then d else v

-- the tick time counts for the session timeouts as it is after its own default
unfoldable pub conf_with_defaults : ZookeeperConfig → ZookeeperConfig × Bool
conf_with_defaults c =
    let tick_time = fill c.tick_time (pos 2000) in
    (
      record c {
        init_limit = fill c.init_limit (pos 10);
        tick_time = tick_time;
        sync_limit = fill c.sync_limit (pos 2);
        global_outstanding_limit = fill c.global_outstanding_limit (pos 1000);
        pre_alloc_size = fill c.pre_alloc_size (pos 65536);
        snap_count = fill c.snap_count (pos 10000);
        commit_log_count = fill c.commit_log_count (pos 500);
        snap_size_limit_in_kb = fill c.snap_size_limit_in_kb (pos 4194304);
        max_client_cnxns = fill c.max_client_cnxns (pos 60);
        min_session_timeout = fill c.min_session_timeout (scale_int 2 tick_time);
        max_session_timeout = fill c.max_session_timeout (scale_int 20 tick_time);
        auto_purge_snap_retain_count = fill c.auto_purge_snap_retain_count (pos 3);
        auto_purge_purge_interval = fill c.auto_purge_purge_interval (pos 1);
      },
      is_unset c.init_limit
          || is_unset c.tick_time
          || is_unset c.sync_limit
          || is_unset c.global_outstanding_limit
          || is_unset c.pre_alloc_size
          || is_unset c.snap_count
          || is_unset c.commit_log_count
          || is_unset c.snap_size_limit_in_kb
          || is_unset c.max_client_cnxns
          || is_unset c.min_session_timeout
          || is_unset c.max_session_timeout
          || is_unset c.auto_purge_snap_retain_count
          || is_unset c.auto_purge_purge_interval,
    )

abbrev pub default_readiness_probe : Probe
default_readiness_probe = record {
  initial_delay_seconds = default_readiness_probe_initial_delay_seconds;
  period_seconds = default_readiness_probe_period_seconds;
  failure_threshold = default_readiness_probe_failure_threshold;
  success_threshold = default_readiness_probe_success_threshold;
  timeout_seconds = default_readiness_probe_timeout_seconds;
}

-- the success threshold is left at zero
abbrev pub default_liveness_probe : Probe
default_liveness_probe = record {
  initial_delay_seconds = default_liveness_probe_initial_delay_seconds;
  period_seconds = default_liveness_probe_period_seconds;
  failure_threshold = default_liveness_probe_failure_threshold;
  success_threshold = pos 0;
  timeout_seconds = default_liveness_probe_timeout_seconds;
}

abbrev pub fill_probe : Option Probe → Probe → Option Probe × Bool
fill_probe none d = (some d, true)
fill_probe (some p) d = (some p, false)

unfoldable pub probes_with_defaults : Probes → Probes × Bool
probes_with_defaults s =
    let (readiness, c₁) = fill_probe s.readiness_probe default_readiness_probe in
    let (liveness, c₂) = fill_probe s.liveness_probe default_liveness_probe in
    (record { readiness_probe = readiness; liveness_probe = liveness }, c₁ || c₂)

-- `if _, ok := m[k]; !ok { m[k] = v; changed = true }`
unfoldable pub add_label : String → String → Dict → Dict × Bool
add_label k v m = if has k m then (m, false) else (put k v m, true)

is_nil : Option Dict → Bool
is_nil none = true
is_nil (some m) = false

-- the blocks on `Labels` of the specification and of the pod policy
unfoldable pub labels_with_defaults : String → Option Dict → Option Dict × Bool
unfolding is_nil
labels_with_defaults name labels =
    let (m₁, c₁) = add_label "app" name (entries labels) in
    let (m₂, c₂) = add_label "release" name m₁ in (some m₂, is_nil labels || c₁ || c₂)

-- the pod anti-affinity that spreads the members over the hosts
pub default_affinity : String → Json
default_affinity name = single "podAntiAffinity" (
    single "preferredDuringSchedulingIgnoredDuringExecution" (
      one (
        object (
          field "weight" (number (pos 20)) (
            field "podAffinityTerm"
              (object (
                field "topologyKey" (text "kubernetes.io/hostname") (
                  field "labelSelector"
                    (single "matchExpressions" (
                      one (
                        object (
                          field "key" (text "app") (
                            field "operator" (text "In") (field "values" (one (text name)) end))))))
                    end)))
              end)))))

unfoldable pub fill_affinity : String → Option Json → Option Json × Bool
fill_affinity name none = (some (default_affinity name), true)
fill_affinity name (some a) = (some a, false)

-- the second test of the labels for nil never passes, since `p` points to `z.Spec.Pod`
unfoldable pub pod_with_defaults : String → PodPolicy → PodPolicy × Bool
pod_with_defaults name p =
    let (labels, c₁) = labels_with_defaults name p.labels in
    let (affinity, c₂) = fill_affinity name p.affinity in
    (
      record p {
        labels = labels;
        termination_grace_period_seconds =
            fill p.termination_grace_period_seconds default_termination_grace_period;
        service_account_name = fill_text p.service_account_name "default";
        affinity = affinity;
      },
      c₁ || is_unset p.termination_grace_period_seconds || is_blank p.service_account_name || c₂,
    )

abbrev pub retain : String
retain = "Retain"

abbrev pub delete : String
delete = "Delete"

pub is_valid : String → Bool
is_valid v = not (not (str_eq v delete) && not (str_eq v retain))

-- `is_zero` is the method IsZero of resource.Quantity; a missing quantity is zero.
module _ (is_zero : String → Bool) where
  is_zero_quantity : Option String → Bool
  is_zero_quantity none = true
  is_zero_quantity (some q) = is_zero q

  -- the access modes are set with no report of a change
  pub persistence_with_defaults : Persistence → Persistence × Bool
  persistence_with_defaults p =
      let claim = p.persistent_volume_claim_spec in
      let unsized = is_zero_quantity (get "storage" claim.requests) in
      (
        record p {
          volume_reclaim_policy =
              if is_valid p.volume_reclaim_policy then p.volume_reclaim_policy else retain;
          persistent_volume_claim_spec = record claim {
            access_modes = "ReadWriteOnce" ∷ [];
            requests =
                if unsized
                then ("storage", default_zookeeper_cache_volume_size) ∷ []
                else claim.requests;
          };
        },
        not (is_valid p.volume_reclaim_policy) || unsized,
      )

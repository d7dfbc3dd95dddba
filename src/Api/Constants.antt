-- ===== src/Api/Constants.antt =====
-- The constants of api/v1beta1/zookeepercluster_types.go.
use zookeeper_operator.Prelude.{ℤ, pos, String}

abbrev pub default_zk_container_repository : String
default_zk_container_repository = "ghcr.io/infonl/zookeeper"

abbrev pub default_zk_container_version : String
default_zk_container_version = "0.2.16"

abbrev pub default_zk_container_policy : String
default_zk_container_policy = "Always"

abbrev pub default_termination_grace_period : ℤ
default_termination_grace_period = pos 30

abbrev pub default_zookeeper_cache_volume_size : String
default_zookeeper_cache_volume_size = "20Gi"

abbrev pub default_readiness_probe_initial_delay_seconds : ℤ
default_readiness_probe_initial_delay_seconds = pos 10

abbrev pub default_readiness_probe_period_seconds : ℤ
default_readiness_probe_period_seconds = pos 10

abbrev pub default_readiness_probe_failure_threshold : ℤ
default_readiness_probe_failure_threshold = pos 3

abbrev pub default_readiness_probe_success_threshold : ℤ
default_readiness_probe_success_threshold = pos 1

abbrev pub default_readiness_probe_timeout_seconds : ℤ
default_readiness_probe_timeout_seconds = pos 10

abbrev pub default_liveness_probe_initial_delay_seconds : ℤ
default_liveness_probe_initial_delay_seconds = pos 10

abbrev pub default_liveness_probe_period_seconds : ℤ
default_liveness_probe_period_seconds = pos 10

abbrev pub default_liveness_probe_failure_threshold : ℤ
default_liveness_probe_failure_threshold = pos 3

abbrev pub default_liveness_probe_timeout_seconds : ℤ
default_liveness_probe_timeout_seconds = pos 10

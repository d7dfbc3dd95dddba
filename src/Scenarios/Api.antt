-- ===== src/Scenarios/Api.antt =====
-- Runs of the defaults, the ports, the conditions and the conversions of numbers.
use zookeeper_operator.Prelude.{
  ℕ, ◌*◌, ◌≤ℤ◌, pos, String, Bool, true, false, some, List, [], ◌∷◌, ◌≡◌, ◌≢◌, refl, arith, ap,
  scale_int, pos_part,
}
use zookeeper_operator.Kube.Pods.{ContainerPort}
use zookeeper_operator.Api.Status.{
  ClusterCondition, ZookeeperClusterStatus, condition, set_cluster_condition, get_cluster_condition,
  is_cluster_in_ready_state, is_cluster_in_upgrading_state, is_cluster_in_upgrade_failed_state,
}
use zookeeper_operator.Api.Status.Conditions.{condition-set_cluster_condition}
use zookeeper_operator.Api.Status.States.{states-set_cluster_condition}
use zookeeper_operator.Api.Defaults.{is_unset, fill}
use zookeeper_operator.Api.Defaults.Ports.{port_of}
use zookeeper_operator.Api.Spec.{with_defaults}
use zookeeper_operator.Api.Spec.Bounds.{Every, numbers, IsPositive, with_defaults-IsPositive}
use zookeeper_operator.Api.Spec.Settle.{with_defaults_settles}
use zookeeper_operator.Scenarios.Data.{bare, status, condition_of}

abbrev is_zero : String → Bool
is_zero q = false

with_defaults_settles_example :
    with_defaults is_zero (with_defaults is_zero bare).0 ≡ ((with_defaults is_zero bare).0, false)
unfolding is_unset fill scale_int
with_defaults_settles_example = with_defaults_settles is_zero bare refl refl refl

with_defaults-IsPositive_example :
    let s = (with_defaults is_zero bare).0.spec in
    let times = λ (k : ℕ). pos (k * pos_part s.conf.tick_time) in
    Every IsPositive (numbers s.conf)
    × (s.conf.min_session_timeout ≡ fill (pos 0) (times 2))
    × (s.conf.max_session_timeout ≡ fill (pos 0) (times 20))
    × (pos 1 ≤ℤ s.replicas)
    × (pos 1 ≤ℤ s.max_unavailable_replicas)
with_defaults-IsPositive_example =
    with_defaults-IsPositive is_zero bare (ground arith) (omega arith) (omega arith)

-- a running upgrade
abbrev started : ClusterCondition
started = condition_of "Upgrading" "True"

condition-set_cluster_condition_example :
    condition (set_cluster_condition "now" started status) "Error"
    ≡ some (condition_of "Error" "False")
unfolding get_cluster_condition
condition-set_cluster_condition_example =
    condition-set_cluster_condition "now" started status "Error"

abbrev young : ZookeeperClusterStatus
young = record status { conditions = condition_of "PodsReady" "True" ∷ [] }

states-set_cluster_condition_example :
    let after = set_cluster_condition "now" started status in
    (is_cluster_in_upgrading_state after ≡ true)
    × (is_cluster_in_ready_state after ≡ is_cluster_in_ready_state status)
    × (is_cluster_in_upgrade_failed_state after ≡ is_cluster_in_upgrade_failed_state status)
states-set_cluster_condition_example = states-set_cluster_condition "now" started status

abbrev two_ports : List ContainerPort
two_ports = port_of "client" (pos 2182) ∷ port_of "web" (pos 80) ∷ []

abbrev twice : List ContainerPort
twice = port_of "client" (pos 1) ∷ port_of "client" (pos 2) ∷ []

one_is_not_two : pos 1 ≢ pos 2
one_is_not_two h = absurd (omega (arith, ap pos_part h))

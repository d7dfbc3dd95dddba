-- ===== src/Api/Status.antt =====
-- api/v1beta1/status.go: the observed state of a cluster and its conditions. A method that changes
-- the receiver returns the new status; `now` is `time.Now().Format(time.RFC3339)` at the call.
pub mod Closed
pub mod Conditions
pub mod Unique
pub mod Init
pub mod States
pub mod View
pub mod Untouched
use mathlib.Core.Option
use zookeeper_operator.Prelude.{
  ℕ, zero, suc, ℤ, pos, String, str_eq, Bool, true, false, ◌&&◌, ◌||◌, not, Option, none, some,
  List, [], ◌∷◌, ◌++◌, if◌then◌else◌,
}

abbrev pub pods_ready : String
pods_ready = "PodsReady"

abbrev pub upgrading : String
upgrading = "Upgrading"

abbrev pub error : String
error = "Error"

abbrev pub updating_zookeeper_reason : String
updating_zookeeper_reason = "Updating Zookeeper"

-- the values of v1.ConditionStatus that the program writes
abbrev pub condition_true : String
condition_true = "True"

abbrev pub condition_false : String
condition_false = "False"

pub record ClusterCondition : Type 0 where
  pub type : String
  pub status : String
  pub reason : String
  pub message : String
  pub last_update_time : String
  pub last_transition_time : String

pub record MembersStatus : Type 0 where
  pub ready : List String
  pub unready : List String

pub record ZookeeperClusterStatus : Type 0 where
  pub members : MembersStatus
  pub replicas : ℤ  -- int32
  pub ready_replicas : ℤ  -- int32
  pub internal_client_endpoint : String
  pub external_client_endpoint : String
  pub meta_root_created : Bool
  pub current_version : String
  pub target_version : String
  pub conditions : List ClusterCondition

-- one more element in front moves the place by one
abbrev shift : Option (ℕ × ClusterCondition) → Option (ℕ × ClusterCondition)
shift none = none
shift (some (i, c)) = some (suc i, c)

-- the loop of GetClusterCondition
find_condition : List ClusterCondition → String → Option (ℕ × ClusterCondition)
find_condition [] t = none
find_condition (c ∷ conditions) t =
    let rest = find_condition conditions t in if str_eq t c.type then some (0, c) else shift rest

-- `none` is (-1, nil). The condition is a copy: the caller's pointer does not reach into the list.
unfoldable pub get_cluster_condition :
    ZookeeperClusterStatus → String → Option (ℕ × ClusterCondition)
unfolding find_condition
get_cluster_condition zs t = find_condition zs.conditions t

abbrev pub second : Option (ℕ × ClusterCondition) → Option ClusterCondition
second none = none
second (some (i, c)) = some c

-- the second result alone
abbrev pub condition : ZookeeperClusterStatus → String → Option ClusterCondition
condition zs t = second (get_cluster_condition zs t)

pub new_cluster_condition : String → String → String → String → ClusterCondition
new_cluster_condition cond_type status reason message = record {
  type = cond_type;
  status = status;
  reason = reason;
  message = message;
  last_update_time = "";
  last_transition_time = "";
}

-- the first `if` of setClusterCondition on an existing condition
update_status : String → ClusterCondition → ClusterCondition → ClusterCondition
update_status now new old =
    if str_eq old.status new.status
    then old
    else record old { status = new.status; last_transition_time = now; last_update_time = now }

-- the second `if`
update_reason : String → ClusterCondition → ClusterCondition → ClusterCondition
update_reason now new old =
    if not (str_eq old.reason new.reason) || not (str_eq old.message new.message)
    then record old { reason = new.reason; message = new.message; last_update_time = now }
    else old

-- an existing condition brought up to date
pub merge_condition : String → ClusterCondition → ClusterCondition → ClusterCondition
unfolding update_status update_reason
merge_condition now new old = update_reason now new (update_status now new old)

-- `zs.Conditions[position] = c`
set_at : List ClusterCondition → ℕ → ClusterCondition → List ClusterCondition
set_at [] i c = []
set_at (x ∷ xs) zero c = c ∷ xs
set_at (x ∷ xs) (suc i) c = x ∷ set_at xs i c

store_condition :
    String
    → ClusterCondition
    → List ClusterCondition
    → Option (ℕ × ClusterCondition)
    → List ClusterCondition
store_condition now new conditions none = conditions ++ new ∷ []
store_condition now new conditions (some (position, existing)) =
    set_at conditions position (merge_condition now new existing)

pub set_cluster_condition :
    String → ClusterCondition → ZookeeperClusterStatus → ZookeeperClusterStatus
unfolding store_condition
set_cluster_condition now new zs = record zs {
  conditions = store_condition now new zs.conditions (get_cluster_condition zs new.type);
}

-- `if condition == nil { … }` in the loop of Init
add_missing :
    String
    → String
    → ZookeeperClusterStatus
    → Option (ℕ × ClusterCondition)
    → ZookeeperClusterStatus
add_missing now t zs none =
    set_cluster_condition now (new_cluster_condition t condition_false "" "") zs
add_missing now t zs (some found) = zs

init_condition : String → String → ZookeeperClusterStatus → ZookeeperClusterStatus
unfolding add_missing
init_condition now t zs = add_missing now t zs (get_cluster_condition zs t)

-- the three rounds of the loop of Init
unfoldable pub init : String → ZookeeperClusterStatus → ZookeeperClusterStatus
unfolding init_condition
init now zs =
    init_condition now error (init_condition now upgrading (init_condition now pods_ready zs))

module _ (now : String) where
  unfoldable pub set_pods_ready_condition_true : ZookeeperClusterStatus → ZookeeperClusterStatus
  set_pods_ready_condition_true =
      set_cluster_condition now (new_cluster_condition pods_ready condition_true "" "")

  unfoldable pub set_pods_ready_condition_false : ZookeeperClusterStatus → ZookeeperClusterStatus
  set_pods_ready_condition_false =
      set_cluster_condition now (new_cluster_condition pods_ready condition_false "" "")

  unfoldable pub set_upgrading_condition_true :
      String → String → ZookeeperClusterStatus → ZookeeperClusterStatus
  set_upgrading_condition_true reason message =
      set_cluster_condition now (new_cluster_condition upgrading condition_true reason message)

  unfoldable pub set_upgrading_condition_false : ZookeeperClusterStatus → ZookeeperClusterStatus
  set_upgrading_condition_false =
      set_cluster_condition now (new_cluster_condition upgrading condition_false "" "")

  unfoldable pub set_error_condition_true :
      String → String → ZookeeperClusterStatus → ZookeeperClusterStatus
  set_error_condition_true reason message =
      set_cluster_condition now (new_cluster_condition error condition_true reason message)

  unfoldable pub set_error_condition_false : ZookeeperClusterStatus → ZookeeperClusterStatus
  set_error_condition_false =
      set_cluster_condition now (new_cluster_condition error condition_false "" "")

has_failed : Option ClusterCondition → Bool
has_failed none = false
has_failed (some c) = str_eq c.status condition_true && str_eq c.reason "UpgradeFailed"

is_true : Option ClusterCondition → Bool
is_true none = false
is_true (some c) = str_eq c.status condition_true

unfoldable pub is_cluster_in_upgrade_failed_state : ZookeeperClusterStatus → Bool
unfolding has_failed
is_cluster_in_upgrade_failed_state zs = has_failed (condition zs error)

unfoldable pub is_cluster_in_upgrading_state : ZookeeperClusterStatus → Bool
unfolding is_true
is_cluster_in_upgrading_state zs = is_true (condition zs upgrading)

unfoldable pub is_cluster_in_ready_state : ZookeeperClusterStatus → Bool
unfolding is_true
is_cluster_in_ready_state zs = is_true (condition zs pods_ready)

unfoldable pub update_progress :
    String → String → String → ZookeeperClusterStatus → ZookeeperClusterStatus
update_progress now reason updated_replicas zs =
    if is_cluster_in_upgrading_state zs
    then set_upgrading_condition_true now reason updated_replicas zs
    else zs

unfoldable pub get_last_condition : ZookeeperClusterStatus → Option ClusterCondition
get_last_condition zs = if is_cluster_in_upgrading_state zs then condition zs upgrading else none

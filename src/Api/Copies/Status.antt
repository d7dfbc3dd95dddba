-- ===== src/Api/Copies/Status.antt =====
-- The deep copies of the status.
use zookeeper_operator.Prelude.{ℤ, Bool, String, Option, none, some, List, [], ◌++◌}
use zookeeper_operator.Api.Status.{ClusterCondition, MembersStatus, ZookeeperClusterStatus}
use zookeeper_operator.Memory.{Pointer, Alloc, Form, pure, ◌>>=◌, cells, copy_pointer, copy_cells}

-- a nil slice has no elements
abbrev pub listed : {A : Type 0} → Option (List A) → List A
listed none = []
listed (some xs) = xs

unfoldable pub deep_copy_into_condition : ClusterCondition → Alloc ClusterCondition
deep_copy_into_condition c = pure c

deep_copy_condition : Pointer ClusterCondition → Alloc (Pointer ClusterCondition)
deep_copy_condition = copy_pointer deep_copy_into_condition

pub record MembersStatusMemory : Type 0 where
  pub ready : Pointer (List String)
  pub unready : Pointer (List String)

unfoldable pub members_form : Form MembersStatusMemory MembersStatus
members_form = record {
  addresses = λ m. cells.addresses m.ready ++ cells.addresses m.unready;
  value = λ m. record {
    ready = listed (cells.value m.ready);
    unready = listed (cells.value m.unready);
  };
}

unfoldable pub deep_copy_into_members : MembersStatusMemory → Alloc MembersStatusMemory
deep_copy_into_members m = do
  ready ← copy_cells m.ready
  unready ← copy_cells m.unready
  pure (record m { ready = ready; unready = unready })

deep_copy_members : Pointer MembersStatusMemory → Alloc (Pointer MembersStatusMemory)
deep_copy_members = copy_pointer deep_copy_into_members

pub record ZookeeperClusterStatusMemory : Type 0 where
  pub members : MembersStatusMemory
  pub replicas : ℤ
  pub ready_replicas : ℤ
  pub internal_client_endpoint : String
  pub external_client_endpoint : String
  pub meta_root_created : Bool
  pub current_version : String
  pub target_version : String
  pub conditions : Pointer (List ClusterCondition)

unfoldable pub status_form : Form ZookeeperClusterStatusMemory ZookeeperClusterStatus
status_form = record {
  addresses = λ s. members_form.addresses s.members ++ cells.addresses s.conditions;
  value = λ s. record {
    members = members_form.value s.members;
    replicas = s.replicas;
    ready_replicas = s.ready_replicas;
    internal_client_endpoint = s.internal_client_endpoint;
    external_client_endpoint = s.external_client_endpoint;
    meta_root_created = s.meta_root_created;
    current_version = s.current_version;
    target_version = s.target_version;
    conditions = listed (cells.value s.conditions);
  };
}

unfoldable pub deep_copy_into_status :
    ZookeeperClusterStatusMemory → Alloc ZookeeperClusterStatusMemory
deep_copy_into_status s = do
  members ← deep_copy_into_members s.members
  conditions ← copy_cells s.conditions
  pure (record s { members = members; conditions = conditions })

unfoldable pub deep_copy_status :
    Pointer ZookeeperClusterStatusMemory → Alloc (Pointer ZookeeperClusterStatusMemory)
unfolding deep_copy_into_status
deep_copy_status = copy_pointer deep_copy_into_status

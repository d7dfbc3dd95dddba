-- ===== src/Api/Copies/Pods.antt =====
-- The deep copy of the pod policy.
use zookeeper_operator.Prelude.{ℤ, String, Option, none, some, List, [], ◌∷◌, ◌++◌}
use zookeeper_operator.Prelude.Dict.{Dict}
use zookeeper_operator.Kube.Json.{
  Json, Items, Fields, null, text, array, object, nil, cons, end, field,
}
use zookeeper_operator.Kube.Pods.{EnvVar, ResourceRequirements}
use zookeeper_operator.Kube.Copies.{Foreign, foreign, Copies}
use zookeeper_operator.Api.Types.{PodPolicy}
use zookeeper_operator.Api.Copies.Status.{listed}
use zookeeper_operator.Memory.{
  Pointer, Alloc, Form, pure, ◌>>=◌, pointer, elements, cells, copy_pointer, copy_elements,
  copy_cells,
}

abbrev items_of : List Json → Items
items_of [] = nil
items_of (v ∷ vs) = cons v (items_of vs)

abbrev fields_of : Dict → Fields
fields_of [] = end
fields_of ((k, v) ∷ m) = field k (text v) (fields_of m)

-- the serialised forms of a slice and of a map
abbrev pub slice_of : Option (List Json) → Json
slice_of none = null
slice_of (some vs) = array (items_of vs)

abbrev pub map_of : Option Dict → Json
map_of none = null
map_of (some m) = object (fields_of m)

pub record PodPolicyMemory : Type 0 where
  pub labels : Pointer Dict
  pub node_selector : Pointer Dict
  pub affinity : Pointer (Foreign Json)
  pub topology_spread_constraints : Pointer (List (Foreign Json))
  pub resources : Foreign ResourceRequirements
  pub tolerations : Pointer (List (Foreign Json))
  pub env : Pointer (List (Foreign EnvVar))
  pub annotations : Pointer Dict
  pub security_context : Pointer (Foreign Json)
  pub termination_grace_period_seconds : ℤ
  pub service_account_name : String
  pub image_pull_secrets : Pointer (List String)

abbrev pub object_form : {V : Type 0} → Form (Pointer (Foreign V)) (Option V)
object_form = pointer foreign

abbrev pub objects_form : {V : Type 0} → Form (Pointer (List (Foreign V))) (Option (List V))
objects_form = pointer (elements foreign)

unfoldable pub pod_form : Form PodPolicyMemory PodPolicy
pod_form = record {
  addresses = λ p.
      cells.addresses p.labels
      ++ cells.addresses p.node_selector
      ++ object_form.addresses p.affinity
      ++ objects_form.addresses p.topology_spread_constraints
      ++ foreign.addresses p.resources
      ++ objects_form.addresses p.tolerations
      ++ objects_form.addresses p.env
      ++ cells.addresses p.annotations
      ++ object_form.addresses p.security_context
      ++ cells.addresses p.image_pull_secrets;
  value = λ p. record {
    labels = cells.value p.labels;
    node_selector = map_of (cells.value p.node_selector);
    affinity = object_form.value p.affinity;
    topology_spread_constraints = slice_of (objects_form.value p.topology_spread_constraints);
    resources = foreign.value p.resources;
    tolerations = slice_of (objects_form.value p.tolerations);
    env = listed (objects_form.value p.env);
    annotations = cells.value p.annotations;
    security_context = object_form.value p.security_context;
    termination_grace_period_seconds = p.termination_grace_period_seconds;
    service_account_name = p.service_account_name;
    image_pull_secrets = listed (cells.value p.image_pull_secrets);
  };
}

module _ (copies : Copies) where
  unfoldable pub deep_copy_into_pod : PodPolicyMemory → Alloc PodPolicyMemory
  deep_copy_into_pod p = do
    labels ← copy_cells p.labels
    node_selector ← copy_cells p.node_selector
    affinity ← copy_pointer copies.affinity p.affinity
    topology ←
        copy_pointer (copy_elements copies.topology_spread_constraint) p.topology_spread_constraints
    resources ← copies.resources p.resources
    tolerations ← copy_pointer (copy_elements copies.toleration) p.tolerations
    env ← copy_pointer (copy_elements copies.env_var) p.env
    annotations ← copy_cells p.annotations
    security_context ← copy_pointer copies.security_context p.security_context
    image_pull_secrets ← copy_cells p.image_pull_secrets
    pure (record p {
      labels = labels;
      node_selector = node_selector;
      affinity = affinity;
      topology_spread_constraints = topology;
      resources = resources;
      tolerations = tolerations;
      env = env;
      annotations = annotations;
      security_context = security_context;
      image_pull_secrets = image_pull_secrets;
    })

  deep_copy_pod : Pointer PodPolicyMemory → Alloc (Pointer PodPolicyMemory)
  deep_copy_pod = copy_pointer deep_copy_into_pod

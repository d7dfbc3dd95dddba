-- ===== src/Kube/Copies.antt =====
-- The deep copies of the Kubernetes libraries, which the API's own deep copies call. An object of
-- theirs is known by the addresses that it holds and by its value.
use zookeeper_operator.Prelude.{ℕ, List}
use zookeeper_operator.Kube.Json.{Json}
use zookeeper_operator.Kube.Meta.{ObjectMeta}
use zookeeper_operator.Kube.Pods.{
  EnvVar, VolumeMount, Volume, Container, ResourceRequirements, PersistentVolumeClaimSpec,
}
use zookeeper_operator.Memory.{Alloc, Form}
use zookeeper_operator.Memory.Fresh.{IsDeep}

pub record Foreign (V : Type 0) : Type 0 where
  pub held : List ℕ
  pub plain : V

abbrev pub foreign : {V : Type 0} → Form (Foreign V) V
foreign = record { addresses = λ t. t.held; value = λ t. t.plain }

abbrev pub CopyInto : Type 0 → Type 0
CopyInto V = Foreign V → Alloc (Foreign V)

-- DeepCopyInto of the types of corev1 and metav1
pub record Copies : Type 0 where
  pub affinity : CopyInto Json
  pub topology_spread_constraint : CopyInto Json
  pub resources : CopyInto ResourceRequirements
  pub toleration : CopyInto Json
  pub env_var : CopyInto EnvVar
  pub security_context : CopyInto Json
  pub container : CopyInto Container
  pub volume : CopyInto Volume
  pub volume_mount : CopyInto VolumeMount
  pub claim_spec : CopyInto PersistentVolumeClaimSpec
  pub empty_dir : CopyInto Json
  pub object_meta : CopyInto ObjectMeta
  pub list_meta : CopyInto Json

-- each of them is a deep copy
pub record AreDeep (c : Copies) : Type 0 where
  pub affinity : IsDeep foreign c.affinity
  pub topology_spread_constraint : IsDeep foreign c.topology_spread_constraint
  pub resources : IsDeep foreign c.resources
  pub toleration : IsDeep foreign c.toleration
  pub env_var : IsDeep foreign c.env_var
  pub security_context : IsDeep foreign c.security_context
  pub container : IsDeep foreign c.container
  pub volume : IsDeep foreign c.volume
  pub volume_mount : IsDeep foreign c.volume_mount
  pub claim_spec : IsDeep foreign c.claim_spec
  pub empty_dir : IsDeep foreign c.empty_dir
  pub object_meta : IsDeep foreign c.object_meta
  pub list_meta : IsDeep foreign c.list_meta

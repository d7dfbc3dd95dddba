-- ===== src/Kube/Objects.antt =====
-- The objects that a reconciliation creates or updates.
use zookeeper_operator.Prelude.{ℤ, String, Option, List}
use zookeeper_operator.Prelude.Dict.{Dict}
use zookeeper_operator.Kube.Meta.{TypeMeta, ObjectMeta}
use zookeeper_operator.Kube.Pods.{PodTemplate, PersistentVolumeClaim}

pub record StatefulSetSpec : Type 0 where
  pub service_name : String
  pub replicas : Option ℤ  -- *int32
  pub selector : Dict
  pub update_strategy : String
  pub pod_management_policy : String
  pub template : PodTemplate
  pub volume_claim_templates : List PersistentVolumeClaim

pub record StatefulSetStatus : Type 0 where
  pub replicas : ℤ
  pub ready_replicas : ℤ
  pub updated_replicas : ℤ
  pub current_revision : String
  pub update_revision : String

pub record StatefulSet : Type 0 where
  pub type_meta : TypeMeta
  pub meta : ObjectMeta
  pub spec : StatefulSetSpec
  pub status : StatefulSetStatus

pub record ServicePort : Type 0 where
  pub name : String
  pub port : ℤ

pub record ServiceSpec : Type 0 where
  pub ports : List ServicePort
  pub selector : Dict
  pub type : String
  pub cluster_ip : String

-- `ingress_ips` are the addresses of Status.LoadBalancer.Ingress.
pub record Service : Type 0 where
  pub type_meta : TypeMeta
  pub meta : ObjectMeta
  pub spec : ServiceSpec
  pub ingress_ips : List String

pub record ConfigMap : Type 0 where
  pub type_meta : TypeMeta
  pub meta : ObjectMeta
  pub contents : Dict
  pub binary_data : Option Dict

pub record PodDisruptionBudget : Type 0 where
  pub type_meta : TypeMeta
  pub meta : ObjectMeta
  pub max_unavailable : ℤ
  pub selector : Dict

pub record ServiceAccount : Type 0 where
  pub meta : ObjectMeta
  pub image_pull_secrets : List String

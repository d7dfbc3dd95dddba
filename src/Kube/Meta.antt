-- ===== src/Kube/Meta.antt =====
-- metav1.TypeMeta and metav1.ObjectMeta.
use zookeeper_operator.Prelude.{String, Option, none, List, []}
use zookeeper_operator.Prelude.Dict.{Dict}

pub record TypeMeta : Type 0 where
  pub kind : String
  pub api_version : String

pub record OwnerReference : Type 0 where
  pub kind : String
  pub name : String
  pub uid : String

-- A nil map is `none`; a zero timestamp is `none`.
pub record ObjectMeta : Type 0 where
  pub name : String
  pub namespace : String
  pub uid : String
  pub resource_version : String
  pub generate_name : String
  pub labels : Option Dict
  pub annotations : Option Dict
  pub finalizers : List String
  pub owner_references : List OwnerReference
  pub deletion_timestamp : Option String

-- the zero value, from which the program's composite literals start
abbrev pub no_meta : ObjectMeta
no_meta = record {
  name = "";
  namespace = "";
  uid = "";
  resource_version = "";
  generate_name = "";
  labels = none;
  annotations = none;
  finalizers = [];
  owner_references = [];
  deletion_timestamp = none;
}

-- ===== src/Exporter/Generate.antt =====
-- controllers/zookeepercluster_controller.go: GenerateYAML and the functions that it calls.
pub mod Written
use zookeeper_operator.Prelude.{String, Bool, Option, none, some, List, [], ◌∷◌}
use zookeeper_operator.Prelude.Dict.{get, entries}
use zookeeper_operator.Kube.Objects.{StatefulSet}
use zookeeper_operator.Api.Types.{ZookeeperCluster}
use zookeeper_operator.Api.Spec.{with_defaults}
use zookeeper_operator.Zk.Config.{make_config_map}
use zookeeper_operator.Zk.Services.{
  make_client_service, make_headless_service, make_pod_disruption_budget,
}
use zookeeper_operator.Zk.Workloads.{make_stateful_set}
use zookeeper_operator.Controller.Interfaces.{panic, Result, ok, err, go_on}
use zookeeper_operator.Exporter.Files.{
  FileSystem, Manifest, config_map, stateful_set, service, budget, create_output_sub_dir,
  generate_output_yaml_file,
}

-- m["component"], which is empty where the label is not set
abbrev or_empty : Option String → String
or_empty none = ""
or_empty (some v) = v

pub component_of : StatefulSet → String
component_of sts = or_empty (get "component" (entries sts.meta.labels))

module _ {W : Type 0} (fs : FileSystem W) where
  -- The directory is made and then the file is written, unless the directory fails.
  in_sub_dir : String → Manifest → (String × Result (Unit {0})) × W → Result (Unit {0}) × W
  in_sub_dir kind manifest ((subdir, err e), w) = (err e, w)
  in_sub_dir kind manifest ((subdir, ok u), w) = generate_output_yaml_file fs subdir kind manifest w

  export : String → String → Manifest → W → Result (Unit {0}) × W
  unfolding in_sub_dir
  export comp kind manifest w =
      in_sub_dir kind manifest (create_output_sub_dir fs "ZookeeperCluster" comp w)

  pub yaml_config_map : ZookeeperCluster → W → Result (Unit {0}) × W
  unfolding export
  yaml_config_map z =
      let cm = make_config_map z in export "config" cm.type_meta.kind (config_map cm)

  -- The error of the directory is overwritten.
  export_stateful_set : Option StatefulSet → W → Result (Unit {0}) × W
  export_stateful_set none w = (err panic, w)
  export_stateful_set (some sts) w =
      let ((subdir, answer), w') =
        create_output_sub_dir fs "ZookeeperCluster" (component_of sts) w in
      generate_output_yaml_file fs subdir sts.type_meta.kind (stateful_set sts) w'

  pub yaml_stateful_set : ZookeeperCluster → W → Result (Unit {0}) × W
  unfolding export_stateful_set
  yaml_stateful_set z = export_stateful_set (make_stateful_set z)

  pub yaml_client_service : ZookeeperCluster → W → Result (Unit {0}) × W
  unfolding export
  yaml_client_service z =
      let svc = make_client_service z in export "client" svc.type_meta.kind (service svc)

  pub yaml_headless_service : ZookeeperCluster → W → Result (Unit {0}) × W
  unfolding export
  yaml_headless_service z =
      let svc = make_headless_service z in export "headless" svc.type_meta.kind (service svc)

  pub yaml_pod_disruption_budget : ZookeeperCluster → W → Result (Unit {0}) × W
  unfolding export
  yaml_pod_disruption_budget z =
      let pdb = make_pod_disruption_budget z in export "pdb" pdb.type_meta.kind (budget pdb)

  -- the loop over the functions, up to the first error
  generate_all :
      List (ZookeeperCluster → W → Result (Unit {0}) × W)
      → ZookeeperCluster
      → W
      → Result (Unit {0}) × W
  generate_all [] z w = (ok tt, w)
  generate_all (fun ∷ funs) z w = let rest = generate_all funs z in go_on (fun z w) rest

  unfoldable pub generate_yaml : (String → Bool) → ZookeeperCluster → W → Result (Unit {0}) × W
  unfolding generate_all
  generate_yaml is_zero z =
      generate_all
        (yaml_config_map ∷ yaml_stateful_set ∷ yaml_client_service ∷ yaml_headless_service
          ∷ yaml_pod_disruption_budget ∷ [])
        (with_defaults is_zero z).0

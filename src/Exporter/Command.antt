-- ===== src/Exporter/Command.antt =====
-- cmd/exporter/main.go: the command.
pub mod Written
use zookeeper_operator.Prelude.{ℕ, String, Bool}
use zookeeper_operator.Api.Types.{ZookeeperCluster}
use zookeeper_operator.Controller.Interfaces.{panic, Result, ok, err}
use zookeeper_operator.Exporter.Files.{
  FileSystem, create_yaml_output_dir, read_input_cluster_yaml_file,
}
use zookeeper_operator.Exporter.Generate.{generate_yaml}

-- what flags.Parse leaves of the arguments -i and -o
pub record Options : Type 0 where
  pub input : String
  pub output : String

-- os.Exit(1), and the status of a Go program that panics
abbrev pub status_of : Result (Unit {0}) → ℕ
status_of (ok u) = 0
status_of (err panic) = 2
status_of (err e) = 1

-- Build of the builder of controller-runtime's fake client, which is given the cluster as its one
-- object. It panics on an object that it refuses, such as one that is being deleted and has no
-- finalizer.
abbrev pub Build : Type 0
Build = ZookeeperCluster → Result (Unit {0})

-- YAMLExporterReconciler: GenerateYAML does not use the client that is built
unfoldable pub yaml_exporter_reconciler : Build → ZookeeperCluster → Result (Unit {0})
yaml_exporter_reconciler build z = build z

module _ {W : Type 0} (fs : FileSystem W) (build : Build) (is_zero : String → Bool)
    (uid : String) where
  -- The cluster gets a number drawn at random as its uid.
  identified : ZookeeperCluster → ZookeeperCluster
  identified z = record z { meta = record z.meta { uid = uid } }

  generate_with : Result (Unit {0}) → ZookeeperCluster → W → ℕ × W
  generate_with (err e) z w = (status_of (err e), w)
  generate_with (ok u) z w =
      let (answer, w') = generate_yaml fs is_zero z w in (status_of answer, w')

  generate_in : Result (Unit {0}) × W → ZookeeperCluster → ℕ × W
  unfolding identified yaml_exporter_reconciler generate_with
  generate_in (err e, w) z = (1, w)
  generate_in (ok u, w) z =
      let named = identified z in generate_with (yaml_exporter_reconciler build named) named w

  export_input : Result ZookeeperCluster → String → W → ℕ × W
  unfolding generate_in
  export_input (err e) odir w = (1, w)
  export_input (ok z) odir w = generate_in (create_yaml_output_dir fs odir w) z

  -- the exit status
  pub main : Options → W → ℕ × W
  unfolding export_input
  main options w = export_input (read_input_cluster_yaml_file fs options.input w) options.output w

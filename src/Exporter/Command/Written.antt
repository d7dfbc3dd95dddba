-- ===== src/Exporter/Command/Written.antt =====
-- The files of the command, on a file system that obliges.
use zookeeper_operator.Prelude.{ℕ, String, Bool, Option, some, [], ◌≡◌, ◌∙◌, ap}
use zookeeper_operator.Prelude.Dict.{get, or_else}
use zookeeper_operator.Kube.Objects.{StatefulSet}
use zookeeper_operator.Api.Types.{ZookeeperCluster}
use zookeeper_operator.Api.Spec.{with_defaults}
use zookeeper_operator.Zk.Workloads.{make_stateful_set}
use zookeeper_operator.Controller.Interfaces.{Result, ok, err}
use zookeeper_operator.Exporter.Files.{
  FileSystem, Manifest, create_yaml_output_dir, read_input_cluster_yaml_file,
}
use zookeeper_operator.Exporter.Files.Written.{Obliges, Wrote, create_yaml_output_dir-Wrote}
use zookeeper_operator.Exporter.Generate.Written.{exports, generate_yaml-Wrote}
use zookeeper_operator.Exporter.Command.{
  Options, Build, identified, yaml_exporter_reconciler, generate_with, generate_in, export_input,
  main,
}

module _ {W : Type 0} (fs : FileSystem W) (contents : String → W → Option String)
    (text : Manifest → String) (o : Obliges fs contents text) (build : Build)
    (is_zero : String → Bool) (uid : String) where
  abbrev pub with_uid : ZookeeperCluster → ZookeeperCluster
  with_uid z = record z { meta = record z.meta { uid = uid } }

  -- the cluster of which the objects are made
  abbrev pub exported : ZookeeperCluster → ZookeeperCluster
  exported z = (with_defaults is_zero (with_uid z)).0

  -- the exit status, and the files
  pub record Exported (z : ZookeeperCluster) (w : W) (outcome : ℕ × W) : Type 0 where
    pub sts : StatefulSet
    pub made : make_stateful_set (exported z) ≡ some sts
    pub exits : outcome.0 ≡ 0
    pub leaves :
        (q : String)
        → contents q outcome.1 ≡ or_else (get q (exports text (exported z) sts)) (contents q w)

  generate_in-Exported :
      (z : ZookeeperCluster) (w : W) (r : Result (Unit {0}) × W)
      → build (with_uid z) ≡ ok tt
      → Wrote contents [] w r
      → Exported z w (generate_in fs build is_zero uid r z)
  unfolding generate_in generate_with yaml_exporter_reconciler identified get
  generate_in-Exported z w (ok u, v) built h =
      let (sts, made, wrote) = generate_yaml-Wrote fs contents text o is_zero (with_uid z) v in
      record {
        sts = sts;
        made = made;
        exits = rw (built, wrote.succeeds);
        leaves = λ q.
            rw built (wrote.leaves q)
            ∙ ap (or_else (get q (exports text (exported z) sts))) (h.leaves q);
      }
  generate_in-Exported z w (err e, v) built h = absurd (let x = h.succeeds in cc)

  -- Where no call of the file system or of the package yaml fails, the input file is there and holds a
  -- cluster, and the fake client takes this cluster, with the uid that was drawn: the command exits with
  -- status 0, whatever the two arguments are, and leaves five files with the config map, the StatefulSet,
  -- the client and the headless service and the disruption budget of the cluster with its defaults filled
  -- in. Four of them are in fixed places under ZookeeperCluster, and the StatefulSet's is where
  -- ZookeeperCluster joined with the label `component` leads. Every other file is as it was.
  pub main-Exported :
      (options : Options) (z : ZookeeperCluster) (w : W)
      → read_input_cluster_yaml_file fs options.input w ≡ ok z
      → build (with_uid z) ≡ ok tt
      → Exported z w (main fs build is_zero uid options w)
  unfolding main export_input
  main-Exported options z w h built = rw h (
      generate_in-Exported z w (create_yaml_output_dir fs options.output w) built
        (create_yaml_output_dir-Wrote fs contents text o options.output w))

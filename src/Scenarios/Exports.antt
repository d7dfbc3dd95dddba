-- ===== src/Scenarios/Exports.antt =====
-- A run of the exporter, on files that are kept as a map with one buffer.
use zookeeper_operator.Prelude.{String, str_eq, true, false, Option, some, List, [], ◌∷◌, ◌≡◌, refl}
use zookeeper_operator.Prelude.Dict.{Dict, get, put, get-put}
use zookeeper_operator.Std.Filepath.{join}
use zookeeper_operator.Controller.Interfaces.{not_found, panic, Result, ok, err}
use zookeeper_operator.Exporter.Files.{
  FileSystem, Manifest, config_map, stateful_set, service, budget, read_input_cluster_yaml_file,
}
use zookeeper_operator.Exporter.Files.Written.{Obliges}
use zookeeper_operator.Exporter.Command.{Build, main}
use zookeeper_operator.Exporter.Command.Written.{Exported, main-Exported}
use zookeeper_operator.Scenarios.Data.{bare}

join_some :
    (join "ZookeeperCluster" "" ≡ "ZookeeperCluster")
    × (join "a/./b/" "../c" ≡ "a/c")
    × (join "/.." "x" ≡ "/x")
    × (join ".." ".." ≡ "../..")
    × (join "a" ".." ≡ ".")
    × (join "" "" ≡ "")
unfolding join
join_some = (refl, refl, refl, refl, refl, refl)

record Disk : Type 0 where
  files : Dict
  buffer : String

abbrev contents : String → Disk → Option String
contents q d = get q d.files

-- the text of an object is its kind
abbrev kind_text : Manifest → String
kind_text (config_map m) = m.type_meta.kind
kind_text (stateful_set s) = s.type_meta.kind
kind_text (service s) = s.type_meta.kind
kind_text (budget b) = b.type_meta.kind

abbrev disk : FileSystem Disk
disk = record {
  stat = λ p d. elim (str_eq p "in.yaml") [ true ↦ ok tt | false ↦ err (not_found p) ];
  mkdir_all = λ p d. (ok tt, d);
  create = λ p d. (ok tt, record d { files = put p "" d.files });
  write = λ p t d. ((4, ok tt), record d { buffer = t });
  flush = λ p d. record { files = put p d.buffer d.files; buffer = "" };
  close = λ p d. d;
  read_file = λ p d. ok "input";
  marshal = λ m. ok (kind_text m);
  unmarshal = λ t. ok bare;
}

disk-Obliges : Obliges disk contents kind_text
disk-Obliges = record {
  marshals = λ m. refl;
  makes = λ p d. refl;
  contents-mkdir_all = λ q p d. refl;
  creates = λ p d. refl;
  contents-create = λ q p d. get-put p q "" d.files;
  writes = λ p t d. refl;
  contents-flush = λ q p t d h. get-put p q t d.files;
  contents-close = λ q p d. refl;
}

abbrev start : Disk
start = record { files = ("in.yaml", "input") ∷ []; buffer = "" }

-- the fake client refuses a cluster that is being deleted and has no finalizer
abbrev takes : Option String → List String → Result (Unit {0})
takes (some t) [] = err panic
takes t finalizers = ok tt

abbrev build : Build
build z = takes z.meta.deletion_timestamp z.meta.finalizers

main-Exported_example :
    Exported disk contents kind_text disk-Obliges build
      (λ q. false)
      "1"
      bare
      start
      (main disk build (λ q. false) "1" (record { input = "in.yaml"; output = "out" }) start)
unfolding read_input_cluster_yaml_file
main-Exported_example =
    main-Exported disk contents kind_text disk-Obliges build (λ q. false) "1"
      (record { input = "in.yaml"; output = "out" }) bare start refl refl

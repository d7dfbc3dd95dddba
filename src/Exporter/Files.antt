-- ===== src/Exporter/Files.antt =====
-- pkg/yamlexporter/exportutil.go. The files of the system and the package yaml are parameters: the
-- fields are the functions that the code calls of os, bufio and yaml.
pub mod Written
use zookeeper_operator.Prelude.{ℕ, pos, String, ◌&◌}
use zookeeper_operator.Std.Strconv.{itoa}
use zookeeper_operator.Std.Filepath.{join}
use zookeeper_operator.Kube.Objects.{StatefulSet, Service, ConfigMap, PodDisruptionBudget}
use zookeeper_operator.Api.Types.{ZookeeperCluster}
use zookeeper_operator.Controller.Interfaces.{not_found, failure, describe, Result, ok, err}

-- an object that is written
pub data Manifest : Type 0 where
  config_map : ConfigMap → Manifest
  stateful_set : StatefulSet → Manifest
  service : Service → Manifest
  budget : PodDisruptionBudget → Manifest

-- An open file is named by its path. `write` puts text into the buffer of an open file and answers the
-- number of bytes taken, and `flush` and `close` have an answer that the code drops. A missing file
-- is the error that os.IsNotExist recognises.
pub record FileSystem (W : Type 0) : Type 0 where
  pub stat : String → W → Result (Unit {0})
  pub mkdir_all : String → W → Result (Unit {0}) × W
  pub create : String → W → Result (Unit {0}) × W
  pub write : String → String → W → (ℕ × Result (Unit {0})) × W
  pub flush : String → W → W
  pub close : String → W → W
  pub read_file : String → W → Result String
  pub marshal : Manifest → Result String
  pub unmarshal : String → Result ZookeeperCluster

module _ {W : Type 0} (fs : FileSystem W) where
  make_missing : String → Result (Unit {0}) → W → Result (Unit {0}) × W
  make_missing dir (err (not_found t)) w = fs.mkdir_all dir w
  make_missing dir answer w = (ok tt, w)

  create_dir_if_not_exist : String → W → Result (Unit {0}) × W
  unfolding make_missing
  create_dir_if_not_exist dir w = make_missing dir (fs.stat dir w) w

  unfoldable pub create_yaml_output_dir : String → W → Result (Unit {0}) × W
  unfolding create_dir_if_not_exist
  create_yaml_output_dir maindir w = create_dir_if_not_exist maindir w

  -- the path, and the error
  unfoldable pub create_output_sub_dir : String → String → W → (String × Result (Unit {0})) × W
  unfolding create_dir_if_not_exist
  create_output_sub_dir cluster_name comp_name w =
      let fpath = join cluster_name comp_name in
      let (answer, w') = create_dir_if_not_exist fpath w in ((fpath, answer), w')

  -- errors.Wrapf
  wrap_write : ℕ → Result (Unit {0}) → Result (Unit {0})
  wrap_write n (ok u) = ok tt
  wrap_write n (err e) =
      err (failure ("write failed total bytes written:" & itoa (pos n) & ": " & describe e))

  write_marshalled : String → Result String → W → Result (Unit {0}) × W
  unfolding wrap_write
  write_marshalled filename (err e) w = (err e, w)
  write_marshalled filename (ok yaml_data) w =
      let ((n, answer), w') = fs.write filename yaml_data w in (wrap_write n answer, w')

  -- what follows the answer of os.Create, with the two deferred calls
  fill_created : String → Manifest → Result (Unit {0}) × W → Result (Unit {0}) × W
  unfolding write_marshalled
  fill_created filename manifest (err e, w) = (err e, w)
  fill_created filename manifest (ok u, w) =
      let (answer, w') = write_marshalled filename (fs.marshal manifest) w in
      (answer, fs.close filename (fs.flush filename w'))

  unfoldable pub generate_output_yaml_file : String → String → Manifest → W → Result (Unit {0}) × W
  unfolding fill_created
  generate_output_yaml_file subdir dep_type manifest w =
      let filename = join subdir (dep_type & "." & "yaml") in
      fill_created filename manifest (fs.create filename w)

  parse_source : Result String → Result ZookeeperCluster
  parse_source (err e) = err e
  parse_source (ok source) = fs.unmarshal source

  read_present : Result (Unit {0}) → String → W → Result ZookeeperCluster
  unfolding parse_source
  read_present (err (not_found t)) inyamlfile w = err (not_found t)
  read_present answer inyamlfile w = parse_source (fs.read_file inyamlfile w)

  unfoldable pub read_input_cluster_yaml_file : String → W → Result ZookeeperCluster
  unfolding read_present
  read_input_cluster_yaml_file inyamlfile w = read_present (fs.stat inyamlfile w) inyamlfile w

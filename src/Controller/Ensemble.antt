-- ===== src/Controller/Ensemble.antt =====
-- pkg/zk/zookeeper_client.go: DefaultZookeeperClient, which fills the interface ZookeeperClient. The
-- connection of the package go-zookeeper is a parameter; the field `conn` is part of the world.
pub mod Nodes
pub mod Served
use Prim.Native.Char.{Char, code}
use Prim.Native.String as S
use zookeeper_operator.Prelude.{
  ℕ, ◌==◌, ℤ, String, ◌&◌, Bool, true, false, Option, none, some, List, [], ◌∷◌, if◌then◌else◌,
}
use zookeeper_operator.Std.Strconv.{itoa}
use zookeeper_operator.Std.Strings.Split.{split}
use zookeeper_operator.Api.Types.{ZookeeperCluster}
use zookeeper_operator.Controller.Interfaces.{
  Error, failure, describe, Result, ok, err, go_on, ZookeeperClient,
}

-- zk.Connect, and Create, Set, Exists and Close of zk.Conn. Data of `none` is nil. Exists answers the
-- version of the node, or `none` where there is no node.
pub record Connection (W : Type 0) : Type 0 where
  pub dial : String → W → Result (Unit {0}) × W
  pub create : String → Option String → W → Result (Unit {0}) × W
  pub set : String → String → ℤ → W → Result (Unit {0}) × W
  pub exists : String → W → Result (Option ℤ) × W
  pub hang_up : W → W

-- the parts that have one behind them: paths[0:pathLength-1]
pub but_last : List String → List String
but_last [] = []
but_last (p ∷ []) = []
but_last (p ∷ (q ∷ ps)) = p ∷ but_last (q ∷ ps)

-- paths[pathLength-1]; strings.Split returns no empty slice here
pub last_part : List String → String
last_part [] = ""
last_part (p ∷ []) = p
last_part (p ∷ (q ∷ ps)) = last_part (q ∷ ps)

abbrev pub tail : List String → List String
tail [] = []
tail (p ∷ ps) = ps

module _ {W : Type 0} (conn : Connection W) where
  unfoldable pub wrap : {A : Type 0} → (String → String) → Result A → Result A
  wrap text (ok a) = ok a
  wrap text (err e) = err (failure (text (describe e)))

  pub connect_client : String → W → Result (Unit {0}) × W
  unfolding wrap
  connect_client zk_uri w =
      let (answer, w') = conn.dial zk_uri w in
      (wrap (λ t. "Failed to connect to zookeeper: " & zk_uri & ", Reason: " & t) answer, w')

  create_one : String → String → Option String → W → Result (Unit {0}) × W
  unfolding wrap
  create_one text path value w =
      let (answer, w') = conn.create path value w in (wrap (λ t. text & path & ": " & t) answer, w')

  -- the loop over the parents, and the child under the last of them
  create_below : String → List String → String → String → W → Result (Unit {0}) × W
  unfolding create_one
  create_below parent [] child value w =
      create_one "Error creating sub zkNode: " (parent & "/" & child) (some value) w
  create_below parent (p ∷ ps) child value w =
      go_on (create_one "Error creating parent zkNode: " (parent & "/" & p) none w)
        (create_below (parent & "/" & p) ps child value)

  pub create_node_client : ZookeeperCluster → String → W → Result (Unit {0}) × W
  unfolding create_below
  create_node_client zoo z_node_path w =
      let paths = split b'/' z_node_path in
      create_below "" (tail (but_last paths)) (last_part paths)
        ("CLUSTER_SIZE=" & itoa zoo.spec.replicas) w

  pub update_node_client : String → String → ℤ → W → Result (Unit {0}) × W
  unfolding wrap
  update_node_client path value version w =
      let (answer, w') = conn.set path value version w in
      (wrap (λ t. "Error updating zkNode: " & t) answer, w')

  -- the text of a nil error, where there is no node
  version_of : String → Result (Option ℤ) → Result ℤ
  version_of path (ok (some version)) = ok version
  version_of path (ok none) =
      err (failure ("Znode exists check failed for path " & path & ": <nil>"))
  version_of path (err e) =
      err (failure ("Znode exists check failed for path " & path & ": " & describe e))

  pub node_exists_client : String → W → Result ℤ × W
  unfolding version_of
  node_exists_client path w = let (answer, w') = conn.exists path w in (version_of path answer, w')

  -- the interface, filled
  abbrev pub default_client : ZookeeperClient W
  default_client = record {
    connect = connect_client;
    create_node = create_node_client;
    node_exists = node_exists_client;
    update_node = update_node_client;
    close = conn.hang_up;
  }

-- ===== src/Controller/Ensemble/Nodes.antt =====
-- Which nodes CreateNode creates for the metadata path.
use text.Mathlib.TextLemmas.{cons-append}
use zookeeper_operator.Prelude.{◌&◌, false, some, none, [], ◌∷◌, ◌≡◌, refl}
use zookeeper_operator.Std.Strconv.{itoa}
use zookeeper_operator.Std.Strings.Split.{split}
use zookeeper_operator.Std.Strings.Split.Join.{has_char, split_part, split-append}
use zookeeper_operator.Api.Types.{ZookeeperCluster}
use zookeeper_operator.Utils.Zookeeper.{get_meta_path}
use zookeeper_operator.Controller.Interfaces.{Error, failure, describe, Result, ok, err}
use zookeeper_operator.Controller.Ensemble.{
  Connection, but_last, last_part, wrap, create_one, create_below, create_node_client,
}

split_meta_path :
    (z : ZookeeperCluster)
    → has_char b'/' z.meta.name ≡ false
    → split b'/' (get_meta_path z) ≡ "" ∷ "zookeeper-operator" ∷ z.meta.name ∷ []
unfolding get_meta_path split
split_meta_path z h = rw (
  cons-append,
  split-append b'/' "/" "/" "zookeeper-operator" z.meta.name refl refl refl,
  split_part b'/' z.meta.name h,
)

module _ {W : Type 0} (conn : Connection W) (z : ZookeeperCluster) (w w' : W)
    (plain : has_char b'/' z.meta.name ≡ false) where
  -- Where the cluster's name has no slash and the root node can be created: CreateNode for the
  -- cluster's metadata path creates the root node and then, under it, the node of the cluster with
  -- the size that is wanted; it fails exactly if that second Create does, with its wrapped error.
  pub create_node_client_meta :
      (answer : Result (Unit {0})) (w'' : W)
      → conn.create "/zookeeper-operator" none w ≡ (ok tt, w')
      → conn.create
          ("/zookeeper-operator" & "/" & z.meta.name)
          (some ("CLUSTER_SIZE=" & itoa z.spec.replicas))
          w'
        ≡ (answer, w'')
      → create_node_client conn z (get_meta_path z) w ≡ (
        wrap conn
            (λ t.
              "Error creating sub zkNode: "
              & ("/zookeeper-operator" & "/" & z.meta.name)
              & ": "
              & t)
            answer,
        w'',
      )
  unfolding create_node_client create_below create_one wrap but_last last_part
  create_node_client_meta answer w'' root child = rw (split_meta_path z plain, root, child)

  -- Where the cluster's name has no slash and the Create of the root node fails, for whatever reason,
  -- CreateNode fails with its wrapped error and does not come to the cluster's node.
  pub create_node_client_rooted :
      (e : Error)
      → conn.create "/zookeeper-operator" none w ≡ (err e, w')
      → create_node_client conn z (get_meta_path z) w ≡ (
        err (
            failure ("Error creating parent zkNode: " & "/zookeeper-operator" & ": " & describe e)),
        w',
      )
  unfolding create_node_client create_below create_one wrap but_last last_part
  create_node_client_rooted e root = rw (split_meta_path z plain, root)

-- ===== src/Controller/Ensemble/Served.antt =====
-- The client of the ensemble where every call is served: what the nodes hold behind CreateNode,
-- NodeExists and UpdateNode.
use zookeeper_operator.Prelude.{
  ℕ, ℤ, pos, String, str_eq, true, ◌&◌, codes, codes-append, false, Option, none, some, List, [],
  ◌∷◌, ◌++◌, ◌≡◌, ◌≢◌, ◌⊎◌, inl, inr, refl, ap, ◌∙◌,
}
use zookeeper_operator.Std.Strconv.{itoa}
use zookeeper_operator.Std.Strings.Split.Join.{has_char}
use zookeeper_operator.Api.Types.{ZookeeperCluster}
use zookeeper_operator.Utils.Zookeeper.{get_meta_path}
use zookeeper_operator.Controller.Interfaces.{ok}
use zookeeper_operator.Controller.Ensemble.{
  Connection, wrap, connect_client, create_node_client, update_node_client, version_of,
  node_exists_client,
}
use zookeeper_operator.Controller.Ensemble.Nodes.{create_node_client_meta}

pub record Node : Type 0 where
  pub value : Option String
  pub version : ℤ

-- the answer of Exists
abbrev pub version_at : Option Node → Option ℤ
version_at none = none
version_at (some n) = some n.version

-- `parent` is the root of the tree or a node
abbrev HasNode : (String → Option Node) → String → Type 0
HasNode nodes parent = (parent ≡ "") ⊎ ((n : Node) × (nodes parent ≡ some n))

abbrev pub Holds : (String → Option Node) → String → String → Type 0
Holds nodes path value =
    (version : ℤ) × (nodes path ≡ some (record { value = some value; version = version }))

-- An ensemble that answers every call, where `nodes` tells what it holds. Create makes a node of
-- version 0 under a node that is there, Set at the node's version replaces its data, and the other
-- calls change no node.
pub record Serves {W : Type 0} (conn : Connection W) (nodes : W → String → Option Node)
    : Type 0 where
  pub dials : (uri : String) (w : W) → (conn.dial uri w).0 ≡ ok tt
  pub dial_keeps : (uri : String) (w : W) → nodes (conn.dial uri w).1 ≡ nodes w
  pub hang_up_keeps : (w : W) → nodes (conn.hang_up w) ≡ nodes w
  pub creates :
      (parent name : String) (value : Option String) (w : W)
      → has_char b'/' name ≡ false
      → name ≢ ""
      → HasNode (nodes w) parent
      → nodes w (parent & "/" & name) ≡ none
      → (conn.create (parent & "/" & name) value w).0 ≡ ok tt
  pub created :
      (path : String) (value : Option String) (w : W)
      → (conn.create path value w).0 ≡ ok tt
      → nodes (conn.create path value w).1 path ≡ some (record { value = value; version = pos 0 })
  pub create_keeps :
      (path other : String) (value : Option String) (w : W)
      → path ≢ other
      → nodes (conn.create path value w).1 other ≡ nodes w other
  pub sees : (path : String) (w : W) → (conn.exists path w).0 ≡ ok (version_at (nodes w path))
  pub exists_keeps : (path : String) (w : W) → nodes (conn.exists path w).1 ≡ nodes w
  pub sets :
      (path value : String) (n : Node) (w : W)
      → nodes w path ≡ some n
      → Holds (nodes (conn.set path value n.version w).1) path value

append-cons_differs : (xs ys : List ℕ) (y : ℕ) → xs ≢ xs ++ y ∷ ys
append-cons_differs [] ys y h = cc
append-cons_differs (x ∷ xs) ys y h = append-cons_differs xs ys y cc

root_named : ◌≢◌ {A = String} "zookeeper-operator" ""
root_named e = let h : false ≡ true = ap (λ t. str_eq t "") e in cc

child_differs : (name : String) → "/zookeeper-operator" ≢ "/zookeeper-operator" & "/" & name
child_differs name h = append-cons_differs (codes "/zookeeper-operator") (codes name) b'/' (
    ap codes h
    ∙ codes-append "/zookeeper-operator" ("/" & name)
    ∙ ap (λ xs. codes "/zookeeper-operator" ++ xs) (codes-append "/" name))

module _ {W : Type 0} (conn : Connection W) (nodes : W → String → Option Node)
    (served : Serves conn nodes) where
  pub connect_client_served :
      (uri : String) (w : W) → connect_client conn uri w ≡ (ok tt, (conn.dial uri w).1)
  unfolding connect_client wrap
  connect_client_served uri w = rw (served.dials uri w)

  pub node_exists_client_served :
      (path : String) (n : Node) (w : W)
      → nodes w path ≡ some n
      → node_exists_client conn path w ≡ (ok n.version, (conn.exists path w).1)
  unfolding node_exists_client version_of
  node_exists_client_served path n w h = rw (served.sees path w, h)

  pub update_node_client_served :
      (path value : String) (n : Node) (w : W)
      → nodes w path ≡ some n
      → Holds (nodes (update_node_client conn path value n.version w).1) path value
  unfolding update_node_client
  update_node_client_served path value n w h = served.sets path value n w h

  -- CreateNode for the metadata path of a cluster whose nodes are not there yet
  pub create_node_client_served :
      (z : ZookeeperCluster) (w : W)
      → has_char b'/' z.meta.name ≡ false
      → z.meta.name ≢ ""
      → nodes w "/zookeeper-operator" ≡ none
      → nodes w (get_meta_path z) ≡ none
      → (w' : W) × (create_node_client conn z (get_meta_path z) w ≡ (ok tt, w'))
        × Holds (nodes w') (get_meta_path z) ("CLUSTER_SIZE=" & itoa z.spec.replicas)
  unfolding get_meta_path wrap
  create_node_client_served z w plain named no_root no_node =
      let made = served.creates "" "zookeeper-operator" none w refl root_named (inl refl) no_root in
      let u = (conn.create "/zookeeper-operator" none w).1 in
      let value = some ("CLUSTER_SIZE=" & itoa z.spec.replicas) in
      let path = "/zookeeper-operator" & "/" & z.meta.name in
      let there = served.created "/zookeeper-operator" none w made in
      let free : nodes u path ≡ none =
        served.create_keeps "/zookeeper-operator" path none w (child_differs z.meta.name)
        ∙ no_node in
      let done =
        served.creates "/zookeeper-operator" z.meta.name value u plain named (inr (_, there))
          free in
      (
        (conn.create path value u).1,
        create_node_client_meta conn z w u plain (ok tt) (conn.create path value u).1
            (ap (λ a. (a, u)) made) (ap (λ a. (a, (conn.create path value u).1)) done),
        (pos 0, served.created path value u done),
      )

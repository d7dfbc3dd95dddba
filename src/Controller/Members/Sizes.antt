-- ===== src/Controller/Members/Sizes.antt =====
-- The size of the cluster in the metadata node: reconcileClusterStatus creates the node, and
-- reconcileStatefulSet writes it, both through the client of the ensemble.
use zookeeper_operator.Prelude.{
  ℤ, eq_ℤ, String, true, false, Option, none, some, ◌≡◌, ◌≢◌, refl, sym, ap, ◌∙◌, List, [], ◌∷◌,
}
use zookeeper_operator.Std.Strings.Split.Join.{has_char}
use zookeeper_operator.Kube.Objects.{StatefulSet}
use zookeeper_operator.Kube.Pods.{Pod}
use zookeeper_operator.Api.Status.{
  is_cluster_in_upgrade_failed_state, is_cluster_in_upgrading_state,
}
use zookeeper_operator.Utils.Zookeeper.{get_zk_service_uri, get_meta_path}
use zookeeper_operator.Controller.Interfaces.{Result, ok, Reconciler}
use zookeeper_operator.Controller.Interfaces.Guarded.{SparesClient, Anything, Anything-IsClosed, On}
use zookeeper_operator.Controller.Op.{State, Op}
use zookeeper_operator.Controller.Op.Keeps.{Keeps}
use zookeeper_operator.Controller.Ensemble.{Connection, default_client, update_node_client}
use zookeeper_operator.Controller.Ensemble.Served.{
  Node, Holds, Serves, connect_client_served, node_exists_client_served, update_node_client_served,
  create_node_client_served,
}
use zookeeper_operator.Controller.StatefulSets.{size_data, update_and_upgrade, apply_size}
use zookeeper_operator.Controller.StatefulSets.Keeps.{update_and_upgrade-Keeps}
use zookeeper_operator.Controller.StatefulSets.Resize.{apply_size_same, apply_size_resized}
use zookeeper_operator.Controller.Members.{store_status, announce, reconcile_cluster_status}
use zookeeper_operator.Controller.Members.Metadata.{noted}
use zookeeper_operator.Controller.Members.Announced.{
  announce_lem, reconcile_cluster_status_pending, noted_path,
}
use zookeeper_operator.Controller.Members.Keeps.{store_status-Keeps}

module _ {W : Type 0} (r : Reconciler W) (conn : Connection W)
    (nodes : W → String → Option Node) where
  -- the reconciler with the client of the ensemble
  abbrev pub joined : Reconciler W
  joined = record r { zk_client = default_client conn }

  -- the answer to the List of the cluster's pods
  abbrev pub listed_pods : State W → Result (List Pod)
  listed_pods s =
      r.client.list_pods s.instance.meta.namespace (("app", s.instance.meta.name) ∷ []) s.world

  -- The worlds that runs of the operator reach, with the size that the last run asked for: the run of
  -- reconcileClusterStatus that creates the metadata node at `path`, runs of reconcileStatefulSet from
  -- the comparison of the sizes on, and steps of others that leave the node as it is.
  pub data Sized (path : String) : ℤ → W → Type 0 where
    created :
        (s : State W) (pods : List Pod)
        → is_cluster_in_upgrading_state s.instance.status ≡ false
        → is_cluster_in_upgrade_failed_state s.instance.status ≡ false
        → listed_pods s ≡ ok pods
        → eq_ℤ s.instance.spec.replicas s.instance.status.ready_replicas ≡ true
        → s.instance.status.meta_root_created ≡ false
        → get_meta_path s.instance ≡ path
        → has_char b'/' s.instance.meta.name ≡ false
        → s.instance.meta.name ≢ ""
        → nodes s.world "/zookeeper-operator" ≡ none
        → nodes s.world path ≡ none
        → Sized path s.instance.spec.replicas (reconcile_cluster_status joined s).1.world
    resized :
        {size : ℤ} (s : State W) (found sts : StatefulSet) (old new : ℤ)
        → Sized path size s.world
        → get_meta_path s.instance ≡ path
        → found.spec.replicas ≡ some old
        → sts.spec.replicas ≡ some new
        → eq_ℤ new old ≡ false
        → Sized path new (apply_size joined found sts s).1.world
    same_size :
        {size : ℤ} (s : State W) (found sts : StatefulSet) (old new : ℤ)
        → Sized path size s.world
        → found.spec.replicas ≡ some old
        → sts.spec.replicas ≡ some new
        → eq_ℤ new old ≡ true
        → Sized path size (apply_size joined found sts s).1.world
    elsewhere :
        {size : ℤ} (w w' : W)
        → Sized path size w
        → nodes w' path ≡ nodes w path
        → Sized path size w'

  module _ (served : Serves conn nodes)
      (apart : (path : String) (n : Option Node)
        → SparesClient joined Anything (λ w. nodes w path ≡ n)) where
    same_node :
        (path : String) {A : Type 0} (m : Op W A)
        → ((n : Option Node) → Keeps (On Anything) (λ w. nodes w path ≡ n) m)
        → (s : State W) → nodes (m s).1.world path ≡ nodes s.world path
    same_node path m k s = ((k (nodes s.world path)).at s (tt, refl)).1

    announce-Holds :
        (s : State W)
        → has_char b'/' s.instance.meta.name ≡ false
        → s.instance.meta.name ≢ ""
        → nodes s.world "/zookeeper-operator" ≡ none
        → nodes s.world (get_meta_path s.instance) ≡ none
        → Holds
            (nodes (announce joined s).1.world)
            (get_meta_path s.instance)
            (size_data s.instance.spec.replicas)
    announce-Holds s plain named no_root no_node =
        let uri = get_zk_service_uri s.instance in
        let path = get_meta_path s.instance in
        let dialled = served.dial_keeps uri s.world in
        let (w, made, (version, held)) =
          create_node_client_served conn nodes served s.instance (conn.dial uri s.world).1 plain
            named (ap (λ f. f "/zookeeper-operator") dialled ∙ no_root)
            (ap (λ f. f path) dialled ∙ no_node) in
        let marked : State W = record {
          instance = record s.instance {
            status = record s.instance.status { meta_root_created = true };
          };
          world = w;
        } in
        (
          version,
          ap (λ a. nodes a.1.world path)
                (announce_lem joined s (conn.dial uri s.world).1 w
                  (connect_client_served conn nodes served uri s.world) made)
              ∙ ap (λ f. f path) (served.hang_up_keeps (store_status joined marked).1.world)
              ∙ same_node path (store_status joined)
                  (λ n. store_status-Keeps joined Anything-IsClosed (apart path n).clusters) marked
              ∙ held,
        )

    resize-Holds :
        (s : State W) (found sts : StatefulSet) (old new : ℤ) (n : Node)
        → found.spec.replicas ≡ some old
        → sts.spec.replicas ≡ some new
        → eq_ℤ new old ≡ false
        → nodes s.world (get_meta_path s.instance) ≡ some n
        → Holds
            (nodes (apply_size joined found sts s).1.world)
            (get_meta_path s.instance)
            (size_data new)
    resize-Holds s found sts old new n f g differs there =
        let uri = get_zk_service_uri s.instance in
        let path = get_meta_path s.instance in
        let w = (conn.dial uri s.world).1 in
        let w' = (conn.exists path w).1 in
        let there_w = ap (λ f. f path) (served.dial_keeps uri s.world) ∙ there in
        let (version, held) =
          update_node_client_served conn nodes served path (size_data new) n w'
            (ap (λ f. f path) (served.exists_keeps path w) ∙ there_w) in
        let written : State W = record s {
          world = (update_node_client conn path (size_data new) n.version w').1;
        } in
        (
          version,
          ap (λ a. nodes a.1.world path)
                (apply_size_resized joined s found sts old new w n.version w' f g differs
                  (connect_client_served conn nodes served uri s.world)
                  (node_exists_client_served conn nodes served path n w there_w))
              ∙ ap (λ h. h path)
                  (served.hang_up_keeps (update_and_upgrade joined found sts written).1.world)
              ∙ same_node path (update_and_upgrade joined found sts)
                  (λ m. update_and_upgrade-Keeps joined Anything-IsClosed (apart path m) found sts)
                  written
              ∙ held,
        )

    apply_size-Holds :
        (path value : String) (s : State W) (found sts : StatefulSet) (old new : ℤ)
        → found.spec.replicas ≡ some old
        → sts.spec.replicas ≡ some new
        → eq_ℤ new old ≡ true
        → Holds (nodes s.world) path value
        → Holds (nodes (apply_size joined found sts s).1.world) path value
    apply_size-Holds path value s found sts old new f g same (version, held) = (
      version,
      ap (λ a. nodes a.1.world path) (apply_size_same joined s found sts old new s.world f g same)
          ∙ same_node path (update_and_upgrade joined found sts)
              (λ n. update_and_upgrade-Keeps joined Anything-IsClosed (apart path n) found sts) s
          ∙ held,
    )

    -- Where the ensemble answers every call and the calls of the Kubernetes client change no node of
    -- it: once a run of reconcileClusterStatus has come to create the metadata node of a cluster, whose
    -- name is no empty text and has no slash, where neither the node nor its root was there, the node
    -- holds `CLUSTER_SIZE=` and a number of replicas, however runs of reconcileStatefulSet, from the
    -- comparison of the sizes on, have followed, with any steps between them that leave the node as it
    -- is. It is the number that the last of these runs wanted that found another one in the StatefulSet,
    -- and otherwise the number at the creation, whatever the API server answered and whether or not the
    -- runs failed.
    pub metadata_follows_size :
        (path : String) (size : ℤ) (w : W)
        → Sized path size w
        → Holds (nodes w) path (size_data size)
    metadata_follows_size path size w
          (created s pods steady sound listed all_ready unmarked at_path plain named no_root
            no_node) =
        let z = s.instance in
        let ready = record s { instance = noted (r.clock.now s.world) pods z } in
        let (version, held) =
          announce-Holds ready plain named no_root
            (ap (nodes s.world) (noted_path (r.clock.now s.world) pods z ∙ at_path) ∙ no_node) in
        (
          version,
          ap (λ a. nodes a.1.world path)
                (reconcile_cluster_status_pending joined s pods steady sound listed all_ready
                  unmarked)
              ∙ ap (nodes (announce joined ready).1.world)
                  (sym at_path ∙ sym (noted_path (r.clock.now s.world) pods z))
              ∙ held,
        )
    metadata_follows_size path size w
          (resized {size = size₀} s found sts old new before at_path f g differs) =
        let (v₀, there) = metadata_follows_size path size₀ s.world before in
        let (version, held) =
          resize-Holds s found sts old new _ f g differs (ap (nodes s.world) at_path ∙ there) in
        (version, ap (nodes (apply_size joined found sts s).1.world) (sym at_path) ∙ held)
    metadata_follows_size path size w (same_size s found sts old new before f g same) =
        apply_size-Holds path (size_data size) s found sts old new f g same
          (metadata_follows_size path size s.world before)
    metadata_follows_size path size w (elsewhere v u before kept) =
        let (version, held) = metadata_follows_size path size v before in (version, kept ∙ held)

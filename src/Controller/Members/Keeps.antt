-- ===== src/Controller/Members/Keeps.antt =====
-- Invariants over reconcileClusterStatus.
use zookeeper_operator.Prelude.{
  eq_ℤ, String, ◌&◌, str_eq, true, ◌&&◌, ◌||◌, not, Bool-cases, inl, inr, [], ◌∷◌,
}
use zookeeper_operator.Api.Types.{ZookeeperCluster}
use zookeeper_operator.Api.Status.{
  ZookeeperClusterStatus, init, is_cluster_in_upgrade_failed_state, is_cluster_in_upgrading_state,
  is_cluster_in_ready_state, set_pods_ready_condition_true, set_pods_ready_condition_false,
}
use zookeeper_operator.Api.Status.Closed.{init_closed}
use zookeeper_operator.Utils.Zookeeper.{get_zk_service_uri, get_meta_path}
use zookeeper_operator.Controller.Interfaces.{Result, ok, err, Reconciler}
use zookeeper_operator.Controller.Interfaces.Guarded.{IsClosed, SparesClusters, SparesEnsemble, On}
use zookeeper_operator.Controller.Op.{gets, lift}
use zookeeper_operator.Controller.Op.Keeps.{
  Keeps, Keeps-if, Keeps-then, Keeps-bind, Keeps-gets, Keeps-pure, Keeps-call, Keeps-modify,
  Keeps-modify_status, Keeps-deferring, Keeps-lift,
}
use zookeeper_operator.Controller.Upgrade.{read_clock}
use zookeeper_operator.Controller.Upgrade.Keeps.{read_clock-Keeps, update_instance_status-Keeps}
use zookeeper_operator.Controller.Members.{
  note_ready, first_version, members_of, wrap, store_status, create_metadata, announce,
  observe_members, reconcile_cluster_status,
}

module _ {W : Type 0} (r : Reconciler W) {J : String → ZookeeperClusterStatus → Type 0}
    {G : W → Type 0} (c : IsClosed J) (g : SparesClusters r J G) where
  note_ready-J :
      (now : String) (z : ZookeeperCluster) → On J z → J z.spec.image.tag (note_ready now z)
  unfolding note_ready set_pods_ready_condition_true set_pods_ready_condition_false
  note_ready-J now z h = elim (Bool-cases (eq_ℤ z.status.ready_replicas z.spec.replicas)) [
    | inl e ↦ rw e (c.sets now _ z.status h)
    | inr e ↦ rw e (c.sets now _ z.status h)
  ]

  first_version-J :
      (tag : String) (zs : ZookeeperClusterStatus) → J tag zs → J tag (first_version tag zs)
  unfolding first_version
  first_version-J tag zs h =
      elim (Bool-cases (str_eq zs.current_version "" && is_cluster_in_ready_state zs)) [
        | inl e ↦ rw e (c.begins zs h)
        | inr e ↦ rw e h
      ]

  pub store_status-Keeps : Keeps (On J) G (store_status r)
  unfolding store_status
  store_status-Keeps = Keeps-bind (read_clock r) _ (read_clock-Keeps r c g) (λ now.
      Keeps-then _ _ (Keeps-modify (λ z. record z { status = note_ready now z }) (note_ready-J now))
        (Keeps-then _ _
          (Keeps-modify (λ z. record z { status = first_version z.spec.image.tag z.status })
            (λ z h. first_version-J z.spec.image.tag z.status h))
          (update_instance_status-Keeps r c g)))

module _ {W : Type 0} (r : Reconciler W) {J : String → ZookeeperClusterStatus → Type 0}
    {G : W → Type 0} (c : IsClosed J) (g : SparesClusters r J G)
    (e : SparesEnsemble r.zk_client G) where
  wrap-G : (text : String → String) (p : Result (Unit {0}) × W) → G p.1 → G (wrap r text p).1
  unfolding wrap
  wrap-G text (ok u, w) h = h
  wrap-G text (err e, w) h = h

  create_metadata-Keeps : Keeps (On J) G (create_metadata r)
  unfolding create_metadata
  create_metadata-Keeps = Keeps-bind (gets (λ s. s.instance)) _ (Keeps-gets _) (λ z.
      let path = get_meta_path z in
      let text : String → String = λ t. "Error creating cluster metadata path " & path & ", " & t in
      Keeps-then _ _
        (Keeps-call (λ w. wrap r text (r.zk_client.create_node z path w))
          (λ w h. wrap-G text (r.zk_client.create_node z path w) (e.creates_node z path w h)))
        (Keeps-modify_status (λ status. record status { meta_root_created = true })
          (λ y h. c.notes_meta_root true y.status h)))

  announce-Keeps : Keeps (On J) G (announce r)
  unfolding announce
  announce-Keeps = Keeps-bind (gets (λ s. get_zk_service_uri s.instance)) _ (Keeps-gets _) (λ uri.
      let text : String → String =
        λ t. "Error creating cluster metaroot. Connect to zk failed " & t in
      Keeps-then _ _
        (Keeps-call (λ w. wrap r text (r.zk_client.connect uri w))
          (λ w h. wrap-G text (r.zk_client.connect uri w) (e.connects uri w h)))
        (Keeps-deferring _ _ e.closes
          (Keeps-then _ _ create_metadata-Keeps (store_status-Keeps r c g))))

  observe_members-Keeps : Keeps (On J) G (observe_members r)
  unfolding observe_members
  observe_members-Keeps = Keeps-bind (read_clock r) _ (read_clock-Keeps r c g) (λ now.
      Keeps-then _ _
        (Keeps-modify_status (init now)
          (λ z h. init_closed (J z.spec.image.tag) c.sets now z.status h))
        (Keeps-bind (gets (λ s. s.instance)) _ (Keeps-gets _) (λ z.
          Keeps-bind
            (gets (λ s. r.client.list_pods z.meta.namespace (("app", z.meta.name) ∷ []) s.world)) _
            (Keeps-gets _)
            (λ pods. Keeps-bind (lift pods) _ (Keeps-lift pods) (λ listed.
              Keeps-then _ _
                (Keeps-modify_status (λ status. record status { members = members_of listed })
                  (λ y h. c.notes_members (members_of listed) y.status h))
                (Keeps-bind
                  (gets (λ s.
                    eq_ℤ s.instance.spec.replicas s.instance.status.ready_replicas
                    && not s.instance.status.meta_root_created))
                  _ (Keeps-gets _)
                  (λ pending. Keeps-if pending _ _ announce-Keeps (store_status-Keeps r c g))))))))

  pub reconcile_cluster_status-Keeps : Keeps (On J) G (reconcile_cluster_status r)
  unfolding reconcile_cluster_status
  reconcile_cluster_status-Keeps =
      Keeps-bind (gets (λ s. s.instance.status)) _ (Keeps-gets _) (λ status.
        Keeps-if (is_cluster_in_upgrading_state status || is_cluster_in_upgrade_failed_state status)
          _ _ (Keeps-pure _) observe_members-Keeps)

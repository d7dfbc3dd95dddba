-- ===== src/Controller/Members/Sent.antt =====
-- The status that reconcileClusterStatus sends.
use zookeeper_operator.Prelude.{
  ℤ, eq_ℤ, String, str_eq, true, false, ◌&&◌, not, ◌≡◌, refl, ap, ◌∙◌, Bool-cases, inl, inr, [],
  ◌∷◌, List, if◌then◌else◌,
}
use zookeeper_operator.Kube.Pods.{Pod}
use zookeeper_operator.Api.Types.{ZookeeperCluster}
use zookeeper_operator.Api.Status.{
  ZookeeperClusterStatus, init, is_cluster_in_upgrading_state, is_cluster_in_upgrade_failed_state,
  is_cluster_in_ready_state, get_cluster_condition,
}
use zookeeper_operator.Api.Status.Init.{init_counts}
use zookeeper_operator.Api.Status.View.{View, view, view-record}
use zookeeper_operator.Api.Status.Untouched.{
  bare_of, bare_of-init, bare_of-set_pods_ready_true, bare_of-set_pods_ready_false, view-init,
}
use zookeeper_operator.Controller.Interfaces.{ok, Reconciler}
use zookeeper_operator.Controller.Op.{State}
use zookeeper_operator.Controller.Upgrade.{read_clock, update_instance_status}
use zookeeper_operator.Controller.Members.{
  note_ready, first_version, store_status, observe_members, reconcile_cluster_status,
}
use zookeeper_operator.Controller.Members.Metadata.{noted}
use zookeeper_operator.Controller.Members.Ready.{names_where, members_of_lem, note_ready_lem}

bare_of-note_ready :
    (now : String) (z : ZookeeperCluster) → bare_of (note_ready now z) ≡ bare_of z.status
unfolding note_ready
bare_of-note_ready now z = elim (Bool-cases (eq_ℤ z.status.ready_replicas z.spec.replicas)) [
  | inl h ↦ rw h (bare_of-set_pods_ready_true now z.status)
  | inr h ↦ rw h (bare_of-set_pods_ready_false now z.status)
]

-- the first version on the view
abbrev pub with_first : String → View → View
with_first tag v = record v {
  current = if str_eq v.current "" && v.is_ready then tag else v.current;
}

view-first_version :
    (tag : String) (zs : ZookeeperClusterStatus)
    → view (first_version tag zs) ≡ with_first tag (view zs)
unfolding first_version
view-first_version tag zs =
    elim (Bool-cases (str_eq zs.current_version "" && is_cluster_in_ready_state zs)) [
      | inl h ↦ rw h (view-record zs tag zs.target_version)
      | inr h ↦ rw h
    ]

members-first_version :
    (tag : String) (zs : ZookeeperClusterStatus) → (first_version tag zs).members ≡ zs.members
unfolding first_version
members-first_version tag zs =
    elim (Bool-cases (str_eq zs.current_version "" && is_cluster_in_ready_state zs)) [
      | inl h ↦ rw h
      | inr h ↦ rw h
    ]

-- the cluster that is sent
abbrev sent : String → List Pod → ZookeeperCluster → ZookeeperClusterStatus
sent now pods z = first_version z.spec.image.tag (note_ready now (noted now pods z))

view-noted :
    (now : String) (pods : List Pod) (z : ZookeeperCluster)
    → view (noted now pods z).status ≡ view (init now z.status)
unfolding is_cluster_in_upgrading_state is_cluster_in_ready_state is_cluster_in_upgrade_failed_state
    get_cluster_condition
view-noted now pods z = refl

view-sent :
    (now : String) (pods : List Pod) (z : ZookeeperCluster)
    → view (sent now pods z)
      ≡ with_first z.spec.image.tag
          (record (view z.status) { is_ready = eq_ℤ z.status.ready_replicas z.spec.replicas })
view-sent now pods z =
    let ready : (init now z.status).ready_replicas ≡ z.status.ready_replicas =
      ap (λ (x : ZookeeperClusterStatus). x.ready_replicas) (bare_of-init now z.status) in
    let noticed : view (note_ready now (noted now pods z))
        ≡ record (view z.status) { is_ready = eq_ℤ z.status.ready_replicas z.spec.replicas } =
      note_ready_lem now (noted now pods z)
      ∙ ap
          (λ (v : View). record v {
            is_ready = eq_ℤ (noted now pods z).status.ready_replicas z.spec.replicas;
          })
          (view-noted now pods z ∙ view-init now z.status)
      ∙ ap (λ (n : ℤ). record (view z.status) { is_ready = eq_ℤ n z.spec.replicas }) ready in
    view-first_version z.spec.image.tag (note_ready now (noted now pods z))
    ∙ ap (with_first z.spec.image.tag) noticed

members-sent :
    (now : String) (pods : List Pod) (z : ZookeeperCluster)
    → (sent now pods z).members
      ≡ record { ready = names_where true pods; unready = names_where false pods }
members-sent now pods z =
    members-first_version z.spec.image.tag (note_ready now (noted now pods z))
    ∙ ap (λ (x : ZookeeperClusterStatus). x.members) (bare_of-note_ready now (noted now pods z))
    ∙ members_of_lem pods

not_pending :
    (now : String) (z : ZookeeperCluster)
    → (eq_ℤ z.spec.replicas z.status.ready_replicas && not z.status.meta_root_created) ≡ false
    → (eq_ℤ z.spec.replicas (init now z.status).ready_replicas
        && not (init now z.status).meta_root_created)
      ≡ false
not_pending now z h = rw ((init_counts now z.status).0, (init_counts now z.status).1) h

-- Where no upgrade runs or has failed, the pods can be listed, and it is not the case that all replicas
-- are ready while the metadata node is not marked as created: the run is the one update of a status, and
-- ends as that does. In the status sent, the members are the listed pods' names, in their order, under
-- `ready` those all of whose containers are ready and under `unready` the others; the cluster is ready
-- exactly if the ready replicas are as many as wanted; the current version is the wanted one if there was
-- none and the cluster is ready, and else as before; and no upgrade runs or has failed.
pub reconcile_cluster_status_sent :
    {W : Type 0} (r : Reconciler W) (s : State W) (pods : List Pod)
    → let z = s.instance in
      let ready = eq_ℤ z.status.ready_replicas z.spec.replicas in
      is_cluster_in_upgrading_state z.status ≡ false
      → is_cluster_in_upgrade_failed_state z.status ≡ false
      → r.client.list_pods z.meta.namespace (("app", z.meta.name) ∷ []) s.world ≡ ok pods
      → (eq_ℤ z.spec.replicas z.status.ready_replicas && not z.status.meta_root_created) ≡ false
      → (status : ZookeeperClusterStatus) × (reconcile_cluster_status r s
          ≡ update_instance_status r (record s { instance = record z { status = status } }))
        × (status.members
            ≡ record { ready = names_where true pods; unready = names_where false pods })
        × (view status ≡ record {
          is_upgrading = false;
          has_failed = false;
          is_ready = ready;
          current =
              if str_eq z.status.current_version "" && ready
              then z.spec.image.tag
              else z.status.current_version;
          target = z.status.target_version;
        })
unfolding reconcile_cluster_status observe_members store_status read_clock
reconcile_cluster_status_sent r s pods steady sound listed calm =
    let z = s.instance in
    let now = r.clock.now s.world in
    (
      sent now pods z,
      rw (steady, sound, listed, not_pending now z calm),
      members-sent now pods z,
      view-sent now pods z ∙ rw (steady, sound),
    )

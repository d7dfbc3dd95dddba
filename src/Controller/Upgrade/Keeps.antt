-- ===== src/Controller/Upgrade/Keeps.antt =====
-- Invariants over upgradeStatefulSet.
use zookeeper_operator.Prelude.{
  String, str_eq, ◌&&◌, not, Option, none, some, Bool-cases, inl, inr, refl,
}
use zookeeper_operator.Kube.Objects.{StatefulSet, StatefulSetStatus}
use zookeeper_operator.Api.Types.{ZookeeperCluster}
use zookeeper_operator.Api.Status.{
  ClusterCondition, ZookeeperClusterStatus, condition, upgrading, condition_true,
  set_upgrading_condition_true, set_upgrading_condition_false, set_pods_ready_condition_false,
  set_error_condition_true, update_progress, updating_zookeeper_reason,
  is_cluster_in_upgrading_state, is_cluster_in_ready_state,
}
use zookeeper_operator.Controller.Interfaces.{Result, ok, err, Reconciler}
use zookeeper_operator.Controller.Interfaces.Guarded.{IsClosed, SparesClusters, Answers, On}
use zookeeper_operator.Controller.Op.{State, continue, gets, modify}
use zookeeper_operator.Controller.Op.Keeps.{
  Keeps, Keeps-if, Keeps-bind, Keeps-store, Keeps-gets, keeps_rules,
}
use zookeeper_operator.Controller.Upgrade.{
  update_instance_status, read_clock, cleared, clear_upgrade_status, start_upgrade,
  complete_upgrade, time_out, note_progress, follow_upgrade, continue_upgrade, upgrade_by,
  upgrade_stateful_set,
}

module _ {W : Type 0} (r : Reconciler W) {J : String → ZookeeperClusterStatus → Type 0}
    {G : W → Type 0} (c : IsClosed J) (g : SparesClusters r J G) where
  pub update_instance_status-Keeps : Keeps (On J) G (update_instance_status r)
  unfolding update_instance_status
  update_instance_status-Keeps =
      Keeps-store r.client.update_status (λ z w h k. (g.stores_status z w h k).leaves)
        (λ z w h k. (g.stores_status z w h k).stored)

  pub read_clock-Keeps : Keeps (On J) G (read_clock r)
  unfolding read_clock
  read_clock-Keeps = search keeps_rules

  cleared-J :
      {tag : String} (now : String) (zs : ZookeeperClusterStatus)
      → J tag zs
      → J tag (cleared r now zs)
  unfolding cleared set_upgrading_condition_false
  cleared-J now zs h = c.clears _ (c.sets now _ zs h)

  -- whatever the server answers, the status in memory is the one that was sent
  clear_stored :
      (s : State W) (p : Result ZookeeperCluster × W)
      → On J s.instance
      → Answers J G p
      → let t =
          (continue p.0
            (λ stored. modify (λ _. record stored { status = s.instance.status }))
            (record s { world = p.1 })).1 in
        On J t.instance × G t.world
  clear_stored s (ok z, w) h a = (c.moves s.instance.status z.status h (a.stored z refl), a.leaves)
  clear_stored s (err e, w) h a = (h, a.leaves)

  pub clear_upgrade_status-Keeps : Keeps (On J) G (clear_upgrade_status r)
  unfolding clear_upgrade_status
  clear_upgrade_status-Keeps = record {
    at = λ s h.
        let z = record s.instance { status = cleared r (r.clock.now s.world) s.instance.status } in
        let kept = cleared-J (r.clock.now s.world) s.instance.status h.0 in
        clear_stored (record { instance = z; world = s.world }) (r.client.clusters.update z s.world)
          kept (g.stores z s.world kept h.1);
  }

  complete_upgrade-Keeps : Keeps (On J) G (complete_upgrade r)
  unfolding complete_upgrade
  complete_upgrade-Keeps = search (keeps_rules, clear_upgrade_status-Keeps, c.completes)

  time_out-Keeps : Keeps (On J) G (time_out r)
  unfolding time_out set_error_condition_true
  time_out-Keeps = search (keeps_rules, read_clock-Keeps, c.sets, update_instance_status-Keeps)

  update_progress-J :
      {tag : String} (now n : String) (zs : ZookeeperClusterStatus)
      → J tag zs
      → J tag (update_progress now updating_zookeeper_reason n zs)
  unfolding update_progress set_upgrading_condition_true
  update_progress-J now n zs h = elim (Bool-cases (is_cluster_in_upgrading_state zs)) [
    | inl e ↦ rw e (c.sets now _ zs h)
    | inr e ↦ rw e h
  ]

  note_progress-Keeps : (n : String) → Keeps (On J) G (note_progress r n)
  unfolding note_progress
  note_progress-Keeps n =
      search (keeps_rules, read_clock-Keeps, update_progress-J, update_instance_status-Keeps)

  follow_upgrade-Keeps :
      (cond : ClusterCondition) (found : StatefulSetStatus)
      → Keeps (On J) G (follow_upgrade r cond found)
  unfolding follow_upgrade
  follow_upgrade-Keeps cond found = search (keeps_rules, time_out-Keeps, note_progress-Keeps)

  continue_upgrade-Keeps :
      (cond : ClusterCondition) (found : StatefulSetStatus)
      → Keeps (On J) G (continue_upgrade r cond found)
  unfolding continue_upgrade
  continue_upgrade-Keeps cond found =
      Keeps-bind (gets (λ s. s.instance.status.target_version)) _ (Keeps-gets _) (λ target.
        Keeps-if (str_eq target "") _ _ clear_upgrade_status-Keeps (
          Keeps-if (str_eq found.current_revision found.update_revision) _ _ complete_upgrade-Keeps
            (follow_upgrade-Keeps cond found)))

  start_upgrade-J :
      (now : String) (z : ZookeeperCluster) (found : StatefulSetStatus)
      → On J z
      → J z.spec.image.tag (start_upgrade r now z found)
  unfolding start_upgrade set_upgrading_condition_true set_pods_ready_condition_false
  start_upgrade-J now z found h =
      elim (Bool-cases (
        is_cluster_in_ready_state z.status
        && not (str_eq found.current_revision found.update_revision)
        && not (str_eq z.spec.image.tag z.status.current_version))) [
          | inl e ↦ rw e (c.sets now _ _ (c.sets now _ _ (c.starts z.status h)))
          | inr e ↦ rw e h
        ]

  upgrade_by-Keeps :
      (o : Option ClusterCondition) (found : StatefulSetStatus)
      → Keeps (On J) G (upgrade_by r o found)
  unfolding upgrade_by set_upgrading_condition_false
  upgrade_by-Keeps none found = search (keeps_rules, read_clock-Keeps, c.sets)
  upgrade_by-Keeps (some cond) found =
      Keeps-if (str_eq cond.status condition_true) _ _ (continue_upgrade-Keeps cond found)
        (search (keeps_rules, read_clock-Keeps, start_upgrade-J, update_instance_status-Keeps))

  pub upgrade_stateful_set-Keeps :
      (found : StatefulSet) → Keeps (On J) G (upgrade_stateful_set r found)
  unfolding upgrade_stateful_set
  upgrade_stateful_set-Keeps found =
      Keeps-bind (gets (λ s. condition s.instance.status upgrading)) _ (Keeps-gets _)
        (λ o. upgrade_by-Keeps o found.status)

-- ===== src/Controller/StatefulSets/Keeps.antt =====
-- Invariants over the parts of reconcileStatefulSet.
use zookeeper_operator.Prelude.{ℤ, String, ◌&◌, true, eq_ℤ, str_eq, ◌&&◌}
use zookeeper_operator.Kube.Objects.{StatefulSet, ServiceAccount}
use zookeeper_operator.Api.Status.{ZookeeperClusterStatus, set_error_condition_false}
use zookeeper_operator.Controller.Interfaces.{
  not_found, failure, panic, Result, ok, err, Reconciler,
}
use zookeeper_operator.Controller.Interfaces.Guarded.{IsClosed, SparesClient, Spares, On}
use zookeeper_operator.Controller.Op.{gets, call, deref}
use zookeeper_operator.Controller.Op.Keeps.{
  Keeps, Keeps-if, Keeps-then, Keeps-bind, Keeps-deref, Keeps-deferring, Keeps-modify_status,
  Keeps-pure, Keeps-gets, Keeps-call, Keeps-ignoring, keeps_rules,
}
use zookeeper_operator.Controller.Upgrade.{read_clock}
use zookeeper_operator.Utils.Zookeeper.{get_zk_service_uri, get_meta_path}
use zookeeper_operator.Controller.Upgrade.Keeps.{
  read_clock-Keeps, clear_upgrade_status-Keeps, upgrade_stateful_set-Keeps,
}
use zookeeper_operator.Controller.StatefulSets.{
  wanted_stateful_set, find_stateful_set, recovered, recover_found, recover_upgrade,
  store_service_account, reconcile_service_account, update_stateful_set, update_and_upgrade,
  size_data, call_wrapped, store_size, resize, apply_size,
}

module _ {W : Type 0} (r : Reconciler W) {J : String → ZookeeperClusterStatus → Type 0}
    {G : W → Type 0} (c : IsClosed J) (g : SparesClient r J G) where
  pub wanted_stateful_set-Keeps : Keeps (On J) G (wanted_stateful_set r)
  unfolding wanted_stateful_set
  wanted_stateful_set-Keeps = search keeps_rules

  pub find_stateful_set-Keeps : (sts : StatefulSet) → Keeps (On J) G (find_stateful_set r sts)
  find_stateful_set-Keeps sts = search keeps_rules

  recovered-J :
      {tag : String} (now : String) (zs : ZookeeperClusterStatus)
      → J tag zs
      → J tag (recovered r now zs)
  unfolding recovered set_error_condition_false
  recovered-J now zs h = c.sets now _ _ (c.completes zs h)

  recover_found-Keeps : (found : Result StatefulSet) → Keeps (On J) G (recover_found r found)
  unfolding recover_found
  recover_found-Keeps (err e) = search keeps_rules
  recover_found-Keeps (ok found) =
      Keeps-bind (call (r.client.stateful_sets.update found)) _
        (search (keeps_rules, g.stateful_sets.updates))
        (λ stored.
          Keeps-if
            (eq_ℤ stored.status.replicas stored.status.ready_replicas
              && str_eq stored.status.current_revision stored.status.update_revision)
            _ _
            (Keeps-bind (read_clock r) _ (read_clock-Keeps r c g.clusters) (λ now.
              Keeps-then _ _ (Keeps-modify_status _ (λ z h. recovered-J now z.status h))
                (Keeps-then _ _ (clear_upgrade_status-Keeps r c g.clusters) (Keeps-pure true))))
            (search keeps_rules))

  pub recover_upgrade-Keeps : Keeps (On J) G (recover_upgrade r)
  unfolding recover_upgrade
  recover_upgrade-Keeps = search (keeps_rules, wanted_stateful_set-Keeps, recover_found-Keeps)

  store_service_account-Keeps :
      (account : ServiceAccount) (found : Result ServiceAccount)
      → Keeps (On J) G (store_service_account r account found)
  unfolding store_service_account
  store_service_account-Keeps account (err (not_found t)) =
      search (keeps_rules, g.service_accounts.creates)
  store_service_account-Keeps account (err (failure t)) = search keeps_rules
  store_service_account-Keeps account (err panic) = search keeps_rules
  store_service_account-Keeps account (ok found) = search (keeps_rules, g.service_accounts.updates)

  pub reconcile_service_account-Keeps : Keeps (On J) G (reconcile_service_account r)
  unfolding reconcile_service_account
  reconcile_service_account-Keeps = search (keeps_rules, store_service_account-Keeps) depth 9

  update_stateful_set-Keeps :
      (found sts : StatefulSet) → Keeps (On J) G (update_stateful_set r found sts)
  unfolding update_stateful_set
  update_stateful_set-Keeps found sts =
      search (keeps_rules, g.stateful_sets.updates, c.notes_replicas) depth 8

  pub update_and_upgrade-Keeps :
      (found sts : StatefulSet) → Keeps (On J) G (update_and_upgrade r found sts)
  unfolding update_and_upgrade
  update_and_upgrade-Keeps found sts =
      search (
        keeps_rules,
        update_stateful_set-Keeps found sts,
        upgrade_stateful_set-Keeps r c g.clusters,
      )

module _ {W : Type 0} (r : Reconciler W) {J : String → ZookeeperClusterStatus → Type 0}
    {G : W → Type 0} (c : IsClosed J) (g : Spares r J G) where
  store_size-Keeps :
      (found sts : StatefulSet) (size : ℤ) → Keeps (On J) G (store_size r found sts size)
  unfolding store_size
  store_size-Keeps found sts size =
      Keeps-bind (gets (λ s. get_meta_path s.instance)) _ (Keeps-gets _) (λ path.
        Keeps-bind
          (call_wrapped r (λ t. "Error doing exists check for znode " & path & ": " & t)
            (r.zk_client.node_exists path))
          _ (Keeps-call _ (g.ensemble.sees_node path))
          (λ version.
            Keeps-then _ _
              (Keeps-ignoring (r.zk_client.update_node path (size_data size) version)
                (g.ensemble.updates_node path (size_data size) version))
              (update_and_upgrade-Keeps r c g.client found sts)))

  resize-Keeps : (found sts : StatefulSet) (size : ℤ) → Keeps (On J) G (resize r found sts size)
  unfolding resize
  resize-Keeps found sts size =
      Keeps-bind (gets (λ s. get_zk_service_uri s.instance)) _ (Keeps-gets _) (λ uri.
        Keeps-then
          (call_wrapped r (λ t. "Error storing cluster size " & t) (r.zk_client.connect uri)) _
          (Keeps-call _ (g.ensemble.connects uri))
          (Keeps-deferring _ _ g.ensemble.closes (store_size-Keeps found sts size)))

  pub apply_size-Keeps : (found sts : StatefulSet) → Keeps (On J) G (apply_size r found sts)
  unfolding apply_size
  apply_size-Keeps found sts =
      Keeps-bind (deref found.spec.replicas) _ (Keeps-deref _) (λ found_size.
        Keeps-bind (deref sts.spec.replicas) _ (Keeps-deref _) (λ new_size.
          Keeps-if (eq_ℤ new_size found_size) _ _ (update_and_upgrade-Keeps r c g.client found sts)
            (resize-Keeps found sts new_size)))

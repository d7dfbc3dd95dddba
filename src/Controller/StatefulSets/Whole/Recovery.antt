-- ===== src/Controller/StatefulSets/Whole/Recovery.antt =====
-- reconcileStatefulSet while an upgrade has failed.
use zookeeper_operator.Prelude.{
  eq_ℤ, str_eq, Bool, true, false, ◌&&◌, some, ◌≡◌, refl, ap, ◌∙◌, if◌then◌else◌,
}
use zookeeper_operator.Kube.Meta.{ObjectMeta}
use zookeeper_operator.Kube.Objects.{StatefulSet}
use zookeeper_operator.Api.Status.{is_cluster_in_upgrade_failed_state}
use zookeeper_operator.Api.Status.View.{View, view, view-record, view-set_error_false}
use zookeeper_operator.Zk.Workloads.{make_stateful_set}
use zookeeper_operator.Controller.Interfaces.{Result, ok, err, Reconciler}
use zookeeper_operator.Controller.Op.{State, Op, continue, pure}
use zookeeper_operator.Controller.Upgrade.{clear_upgrade_status, read_clock}
use zookeeper_operator.Controller.Upgrade.Steps.{view-clear}
use zookeeper_operator.Controller.StatefulSets.{
  wanted_stateful_set, recovered, recover_found, recover_upgrade,
}
use zookeeper_operator.Controller.StatefulSets.Whole.{unless_failed, reconcile_stateful_set}

-- all members are ready, and of one revision
abbrev pub is_rolled_out : StatefulSet → Bool
is_rolled_out stored =
    eq_ℤ stored.status.replicas stored.status.ready_replicas
    && str_eq stored.status.current_revision stored.status.update_revision

-- the state that a step leaves, when nothing but a return follows
last_state :
    {W : Type 0} (p : Result (Unit {0}) × State W) (rest : Op W (Unit {0}))
    → (let (returned, t) = continue p.0 (λ x. pure true) p.1 in
        continue returned (λ b. if b then pure tt else rest) t).1
      ≡ p.1
last_state (ok x, t) rest = refl
last_state (err e, t) rest = refl

module _ {W : Type 0} (r : Reconciler W) (s : State W) (sts found stored : StatefulSet)
    (meta : ObjectMeta) (w : W) where
  -- Where an upgrade has failed, the wanted StatefulSet can be made and owned, one is found and
  -- its update accepted, and what the server returns is rolled out: the target version becomes
  -- the current one, no upgrade and no failure is left, and the readiness is as before. This
  -- holds whether or not the cluster can be stored then.
  pub reconcile_stateful_set_recovered :
      is_cluster_in_upgrade_failed_state s.instance.status ≡ true
      → make_stateful_set s.instance ≡ some sts
      → r.set_controller_reference s.instance.meta sts.meta ≡ ok meta
      → r.client.stateful_sets.get meta.namespace meta.name s.world ≡ ok found
      → r.client.stateful_sets.update found s.world ≡ (ok stored, w)
      → is_rolled_out stored ≡ true
      → view (reconcile_stateful_set r s).1.instance.status ≡ record (view s.instance.status) {
        is_upgrading = false;
        has_failed = false;
        current = s.instance.status.target_version;
        target = "";
      }
  unfolding reconcile_stateful_set recover_upgrade recover_found wanted_stateful_set recovered
      read_clock
  reconcile_stateful_set_recovered failed made owned get update rolled =
      let status = s.instance.status in
      let t : State W = record {
        instance = record s.instance { status = recovered r (r.clock.now w) status };
        world = w;
      } in
      rw (failed, made, owned, get, update, rolled)
        (ap (λ (u : State W). view u.instance.status)
            (last_state (clear_upgrade_status r t) (unless_failed r))
          ∙ view-clear r t
          ∙ ap (λ (v : View). record v { is_upgrading = false; target = "" })
              (view-set_error_false (r.clock.now w)
                (record status { current_version = status.target_version }))
          ∙ ap (λ (v : View). record v { is_upgrading = false; has_failed = false; target = "" })
              (view-record status status.target_version status.target_version))

  -- Where an upgrade has failed, the wanted StatefulSet can be made and owned, one is found and
  -- its update accepted, and what the server returns is not rolled out: the run succeeds with
  -- nothing but that one update done, and the cluster in memory is left as it was.
  pub reconcile_stateful_set_unrecovered :
      is_cluster_in_upgrade_failed_state s.instance.status ≡ true
      → make_stateful_set s.instance ≡ some sts
      → r.set_controller_reference s.instance.meta sts.meta ≡ ok meta
      → r.client.stateful_sets.get meta.namespace meta.name s.world ≡ ok found
      → r.client.stateful_sets.update found s.world ≡ (ok stored, w)
      → is_rolled_out stored ≡ false
      → reconcile_stateful_set r s ≡ (ok tt, record s { world = w })
  unfolding reconcile_stateful_set recover_upgrade recover_found wanted_stateful_set unless_failed
  reconcile_stateful_set_unrecovered failed made owned get update rolled =
      rw (failed, made, owned, get, update, rolled, failed)

-- ===== src/Controller/StatefulSets/Whole/Lifecycle.antt =====
-- An upgrade that fails, and its recovery.
use zookeeper_operator.Prelude.{true, false, some, ◌≡◌, refl, ◌∙◌, ap}
use zookeeper_operator.Kube.Meta.{ObjectMeta}
use zookeeper_operator.Kube.Objects.{StatefulSet}
use zookeeper_operator.Api.Status.View.{View, view}
use zookeeper_operator.Zk.Workloads.{make_stateful_set}
use zookeeper_operator.Controller.Interfaces.{Result, ok, Reconciler}
use zookeeper_operator.Controller.Op.{State}
use zookeeper_operator.Controller.Upgrade.{upgrade_stateful_set}
use zookeeper_operator.Controller.Upgrade.Steps.{observe, KeepsStatus}
use zookeeper_operator.Controller.Upgrade.Progress.{Waits, CanStart, upgrade_times_out}
use zookeeper_operator.Controller.StatefulSets.Whole.{reconcile_stateful_set}
use zookeeper_operator.Controller.StatefulSets.Whole.Recovery.{
  is_rolled_out, reconcile_stateful_set_recovered, reconcile_stateful_set_unrecovered,
}

module _ {W : Type 0} (r : Reconciler W) where
  -- A run finds the wanted StatefulSet, and its update is accepted and answers `stored`.
  pub record Updates (s : State W) (stored : StatefulSet) : Type 0 where
    pub sts : StatefulSet
    pub found : StatefulSet
    pub meta : ObjectMeta
    pub world : W
    pub is_made : make_stateful_set s.instance ≡ some sts
    pub is_owned : r.set_controller_reference s.instance.meta sts.meta ≡ ok meta
    pub is_found : r.client.stateful_sets.get meta.namespace meta.name s.world ≡ ok found
    pub is_updated : r.client.stateful_sets.update found s.world ≡ (ok stored, world)

  -- Runs of reconcileStatefulSet that see a StatefulSet which is not rolled out yet; each finds the
  -- view that the one before it has left.
  pub data Stuck (v : View) : View → Type 0 where
    here : Stuck v v
    retry :
        {u : View}
        → Stuck v u
        → (s : State W) (stored : StatefulSet) → view s.instance.status ≡ u
        → Updates s stored
        → is_rolled_out stored ≡ false
        → Stuck v (view (reconcile_stateful_set r s).1.instance.status)

  Stuck-same : (v u : View) → v.has_failed ≡ true → Stuck v u → u ≡ v
  Stuck-same v u failed here = refl
  Stuck-same v u failed (retry {u = u₀} before s stored e up rolling) =
      let same : view s.instance.status ≡ v = e ∙ Stuck-same v u₀ failed before in
      ap (λ (p : Result (Unit {0}) × State W). view p.1.instance.status)
        (reconcile_stateful_set_unrecovered r s up.sts up.found stored up.meta up.world
          (ap (λ (x : View). x.has_failed) same ∙ failed) up.is_made up.is_owned up.is_found
          up.is_updated rolling)
      ∙ same

  -- Where the API server keeps the status that Status().Update sends: a run of upgradeStatefulSet
  -- that starts an upgrade, any number of runs that see two revisions and no deadline passed, a run
  -- that sees two revisions and a deadline passed, any number of runs of reconcileStatefulSet that
  -- find and update a StatefulSet that is not rolled out, and then one that finds and updates one
  -- that is, leave the wanted version of the first run as the current one, no upgrade, no failure, no
  -- target, and a cluster that is not ready yet.
  pub upgrade_fails_and_recovers :
      KeepsStatus r
      → (first last stored : StatefulSet) (s t u : State W)
      → CanStart (observe r first s) (view s.instance.status)
      → Waits r (view (upgrade_stateful_set r first s).1.instance.status) (view t.instance.status)
      → (observe r last t).rolled_out ≡ false
      → (observe r last t).is_late ≡ true
      → Stuck (view (upgrade_stateful_set r last t).1.instance.status) (view u.instance.status)
      → Updates u stored
      → is_rolled_out stored ≡ true
      → view (reconcile_stateful_set r u).1.instance.status ≡ record {
        is_upgrading = false;
        has_failed = false;
        is_ready = false;
        current = s.instance.spec.image.tag;
        target = "";
      }
  upgrade_fails_and_recovers server first last stored s t u h waits rolling late stuck up rolled =
      let failed = upgrade_times_out r server first last s t h waits rolling late in
      let has_failed = ap (λ (x : View). x.has_failed) failed in
      let same =
        Stuck-same (view (upgrade_stateful_set r last t).1.instance.status) (view u.instance.status)
          has_failed stuck
        ∙ failed in
      reconcile_stateful_set_recovered r u up.sts up.found stored up.meta up.world
        (ap (λ (x : View). x.has_failed) same) up.is_made up.is_owned up.is_found up.is_updated
        rolled
      ∙ ap
          (λ (x : View). record x {
            is_upgrading = false;
            has_failed = false;
            current = x.target;
            target = "";
          })
          same

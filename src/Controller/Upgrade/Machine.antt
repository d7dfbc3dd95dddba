-- ===== src/Controller/Upgrade/Machine.antt =====
-- upgradeStatefulSet against the state machine of `Steps.next`.
use zookeeper_operator.Prelude.{
  str_eq, Bool, true, false, ◌&&◌, not, Option, none, some, if◌then◌else◌, ◌≡◌, refl, Bool-cases,
  inl, inr, ◌∙◌, sym, ap,
}
use zookeeper_operator.Kube.Objects.{StatefulSet}
use zookeeper_operator.Api.Status.{
  ClusterCondition, condition, upgrading, condition_true, condition_false,
  updating_zookeeper_reason,
}
use zookeeper_operator.Api.Status.View.{
  View, view, view-set_upgrading_false, is_upgrading_lem, is_upgrading-none,
}
use zookeeper_operator.Controller.Interfaces.{Reconciler}
use zookeeper_operator.Controller.Op.{State}
use zookeeper_operator.Std.Strconv.{itoa}
use zookeeper_operator.Controller.Upgrade.{
  check_sync_timeout, read_clock, upgrade_by, upgrade_stateful_set,
}
use zookeeper_operator.Controller.Upgrade.Steps.{
  Observation, next, next_running, next_steady, KeepsStatus, observe, after, status-update,
  view-continue, view-start,
}

-- where it is known whether an upgrade runs
pub next_when :
    (o : Observation) (v : View) {b : Bool}
    → v.is_upgrading ≡ b
    → next o v ≡ (if b then next_running o v else next_steady o v)
next_when o v h = ap (λ b. if b then next_running o v else next_steady o v) h

-- where it is known whether one may start
steady_when :
    (o : Observation) (v : View) {b : Bool}
    → o.can_start ≡ b
    → next_steady o v ≡ (
        if b && v.is_ready && not o.rolled_out && not (str_eq o.tag v.current)
        then record v { is_upgrading = true; is_ready = false; target = o.tag }
        else v)
steady_when o v h =
    ap
      (λ b.
        if b && v.is_ready && not o.rolled_out && not (str_eq o.tag v.current)
        then record v { is_upgrading = true; is_ready = false; target = o.tag }
        else v)
      h

module _ {W : Type 0} (r : Reconciler W) (server : KeepsStatus r) (found : StatefulSet)
    (s : State W) where
  late_lem :
      (c : ClusterCondition)
      → condition s.instance.status upgrading ≡ some c
      → (observe r found s).is_late ≡ (
          str_eq (itoa found.status.updated_replicas) c.message
          && check_sync_timeout r s.instance updating_zookeeper_reason found.status.updated_replicas
              600 s.world)
  late_lem c h = rw h

  start_lem :
      (c : ClusterCondition)
      → condition s.instance.status upgrading ≡ some c
      → (observe r found s).can_start ≡ str_eq c.status condition_false
  start_lem c h = rw h

  no_start : condition s.instance.status upgrading ≡ none → (observe r found s).can_start ≡ false
  no_start h = rw h

  view-upgrade_by :
      (o : Option ClusterCondition)
      → condition s.instance.status upgrading ≡ o
      → after r (upgrade_by r o found.status) s ≡ next (observe r found s) (view s.instance.status)
  unfolding upgrade_by read_clock
  view-upgrade_by none h =
      view-set_upgrading_false (r.clock.now s.world) s.instance.status
      ∙ (λ i. record (view s.instance.status) {
        is_upgrading = sym (is_upgrading-none s.instance.status h) i;
      })
      ∙ sym (
          next_when (observe r found s) (view s.instance.status)
            (is_upgrading-none s.instance.status h)
          ∙ steady_when (observe r found s) (view s.instance.status) (no_start h))
  view-upgrade_by (some c) h = elim (Bool-cases (str_eq c.status condition_true)) [
    | inl t ↦
        rw t (view-continue r server c found.status s (observe r found s) refl (late_lem c h))
        ∙ sym (
            next_when (observe r found s) (view s.instance.status)
              (is_upgrading_lem s.instance.status c h ∙ t))
    | inr t ↦ elim (Bool-cases (str_eq c.status condition_false)) [
      | inl f ↦
          rw (t, f)
            (ap view (status-update r server _)
              ∙ view-start r server (r.clock.now s.world) s.instance found.status)
          ∙ sym (
              next_when (observe r found s) (view s.instance.status)
                (is_upgrading_lem s.instance.status c h ∙ t)
              ∙ steady_when (observe r found s) (view s.instance.status) (start_lem c h ∙ f))
      | inr f ↦
          rw (t, f) (ap view (status-update r server _))
          ∙ sym (
              next_when (observe r found s) (view s.instance.status)
                (is_upgrading_lem s.instance.status c h ∙ t)
              ∙ steady_when (observe r found s) (view s.instance.status) (start_lem c h ∙ f))
    ]
  ]

-- Where the API server keeps the status that Status().Update sends: what upgradeStatefulSet leaves of
-- the three states and of the two versions, whether it fails or not, is one step of the state machine
-- `next` on what it found of them, on what it saw of the StatefulSet, and on the clock. In particular
-- the current version changes only when a running upgrade with a target has rolled out, and then
-- becomes the target.
pub upgrade_stateful_set-next :
    {W : Type 0} (r : Reconciler W)
    → KeepsStatus r
    → (found : StatefulSet) (s : State W)
    → view (upgrade_stateful_set r found s).1.instance.status
      ≡ next (observe r found s) (view s.instance.status)
unfolding upgrade_stateful_set
upgrade_stateful_set-next r server found s =
    view-upgrade_by r server found s (condition s.instance.status upgrading) refl

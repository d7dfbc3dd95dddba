-- ===== src/Controller/Upgrade/Traces.antt =====
-- Sequences of reconciliations of the upgrade.
use zookeeper_operator.Prelude.{
  str_eq, Bool, true, false, ◌&&◌, ◌||◌, not, ◌≡◌, ap, ◌∙◌, Bool-cases, inl, inr,
}
use zookeeper_operator.Kube.Objects.{StatefulSet}
use zookeeper_operator.Api.Status.View.{View, view}
use zookeeper_operator.Controller.Interfaces.{Reconciler}
use zookeeper_operator.Controller.Op.{State}
use zookeeper_operator.Controller.Upgrade.{upgrade_stateful_set}
use zookeeper_operator.Controller.Upgrade.Steps.{
  Observation, next, next_running, next_steady, observe, KeepsStatus,
}
use zookeeper_operator.Controller.Upgrade.Machine.{next_when, upgrade_stateful_set-next}

-- What runs of upgradeStatefulSet make of a view, each on any StatefulSet, specification with an image
-- tag, and world. In between, all but the upgrade and its target may change.
pub data Reaches {W : Type 0} (r : Reconciler W) (v : View) : View → Type 0 where
  here : Reaches r v v
  drift :
      {u : View}
      → Reaches r v u
      → (u' : View) → u'.is_upgrading ≡ u.is_upgrading
      → u'.target ≡ u.target
      → Reaches r v u'
  run :
      {u : View}
      → Reaches r v u
      → (found : StatefulSet) (s : State W) → view s.instance.status ≡ u
      → str_eq s.instance.spec.image.tag "" ≡ false
      → Reaches r v (view (upgrade_stateful_set r found s).1.instance.status)

-- an upgrade that runs has a target
abbrev pub has_target : View → Bool
has_target v = not v.is_upgrading || not (str_eq v.target "")

has_target-running :
    (o : Observation) (v : View) → has_target v ≡ true → has_target (next_running o v) ≡ true
has_target-running o v h = elim (Bool-cases (str_eq v.target "")) [
  | inl e ↦ rw e
  | inr e ↦ elim (Bool-cases o.rolled_out) [
    | inl d ↦ rw (e, d)
    | inr d ↦ elim (Bool-cases o.is_late) [ inl l ↦ rw (e, d, l) h | inr l ↦ rw (e, d, l) h ]
  ]
]

has_target-steady :
    (o : Observation) (v : View)
    → str_eq o.tag "" ≡ false
    → has_target v ≡ true
    → has_target (next_steady o v) ≡ true
has_target-steady o v t h =
    elim (Bool-cases
      (o.can_start && v.is_ready && not o.rolled_out && not (str_eq o.tag v.current))) [
        | inl e ↦ rw (e, t)
        | inr e ↦ rw e h
      ]

has_target-next :
    (o : Observation) (v : View)
    → str_eq o.tag "" ≡ false
    → has_target v ≡ true
    → has_target (next o v) ≡ true
has_target-next o v t h = elim (Bool-cases v.is_upgrading) [
  | inl e ↦ ap has_target (next_when o v e) ∙ has_target-running o v h
  | inr e ↦ ap has_target (next_when o v e) ∙ has_target-steady o v t h
]

-- Where the API server keeps the status that Status().Update sends, and every run sees a
-- specification with an image tag: if an upgrade that runs has a target at the start, then after
-- any number of runs of upgradeStatefulSet, between which all but the upgrade and its target may
-- change, an upgrade that runs has a target.
pub Reaches-has_target :
    {W : Type 0} (r : Reconciler W)
    → KeepsStatus r
    → (v u : View) → Reaches r v u
    → has_target v ≡ true
    → has_target u ≡ true
Reaches-has_target r server v u here h = h
Reaches-has_target r server v u (drift {u = u₀} before u' e t) h =
    rw (e, t) (Reaches-has_target r server v u₀ before h)
Reaches-has_target r server v u (run {u = u₀} before found s e tag) h =
    ap has_target (upgrade_stateful_set-next r server found s)
    ∙ has_target-next (observe r found s) (view s.instance.status) tag
        (ap has_target e ∙ Reaches-has_target r server v u₀ before h)

-- ===== src/Controller/Upgrade/Progress.antt =====
-- An upgrade from its start to its end.
use zookeeper_operator.Prelude.{String, str_eq, true, false, ◌≡◌, refl, ◌∙◌, ap}
use zookeeper_operator.Kube.Objects.{StatefulSet}
use zookeeper_operator.Api.Status.View.{View, view}
use zookeeper_operator.Controller.Interfaces.{Reconciler}
use zookeeper_operator.Controller.Op.{State}
use zookeeper_operator.Controller.Upgrade.{upgrade_stateful_set}
use zookeeper_operator.Controller.Upgrade.Steps.{Observation, next, observe, KeepsStatus}
use zookeeper_operator.Controller.Upgrade.Machine.{next_when, upgrade_stateful_set-next}

-- Runs of upgradeStatefulSet that see a rollout which goes on: two revisions, and no deadline that has
-- passed. What one run leaves of the view is what the next one finds.
pub data Waits {W : Type 0} (r : Reconciler W) (v : View) : View → Type 0 where
  here : Waits r v v
  wait :
      {u : View}
      → Waits r v u
      → (found : StatefulSet) (s : State W) → view s.instance.status ≡ u
      → (observe r found s).rolled_out ≡ false
      → (observe r found s).is_late ≡ false
      → Waits r v (view (upgrade_stateful_set r found s).1.instance.status)

-- what a start of an upgrade sees: a cluster that is ready at another version than the wanted one, and
-- a StatefulSet of two revisions
pub record CanStart (o : Observation) (v : View) : Type 0 where
  pub is_idle : v.is_upgrading ≡ false
  pub is_ready : v.is_ready ≡ true
  pub has_condition : o.can_start ≡ true
  pub is_rolling : o.rolled_out ≡ false
  pub has_tag : str_eq o.tag "" ≡ false
  pub is_new : str_eq o.tag v.current ≡ false

next_start :
    (o : Observation) (v : View)
    → CanStart o v
    → next o v ≡ record v { is_upgrading = true; is_ready = false; target = o.tag }
next_start o v h =
    next_when o v h.is_idle ∙ rw (h.has_condition, h.is_ready, h.is_rolling, h.is_new)

next_wait :
    (o : Observation) (v : View)
    → v.is_upgrading ≡ true
    → str_eq v.target "" ≡ false
    → o.rolled_out ≡ false
    → o.is_late ≡ false
    → next o v ≡ v
next_wait o v running target rolling early = next_when o v running ∙ rw (target, rolling, early)

next_end :
    (o : Observation) (v : View)
    → v.is_upgrading ≡ true
    → str_eq v.target "" ≡ false
    → o.rolled_out ≡ true
    → next o v ≡ record v { is_upgrading = false; current = v.target; target = "" }
next_end o v running target rolled = next_when o v running ∙ rw (target, rolled)

module _ {W : Type 0} (r : Reconciler W) (server : KeepsStatus r) where
  Waits-same :
      (v u : View) → v.is_upgrading ≡ true → str_eq v.target "" ≡ false → Waits r v u → u ≡ v
  Waits-same v u running target here = refl
  Waits-same v u running target (wait {u = u₀} before found s e rolling early) =
      let same : view s.instance.status ≡ v = e ∙ Waits-same v u₀ running target before in
      upgrade_stateful_set-next r server found s
      ∙ next_wait (observe r found s) (view s.instance.status)
          (ap (λ (x : View). x.is_upgrading) same ∙ running)
          (ap (λ (x : View). str_eq x.target "") same ∙ target) rolling early
      ∙ same

-- a view behind the start of an upgrade
abbrev pub started : String → View → View
started tag v = record v { is_upgrading = true; is_ready = false; target = tag }

-- what the runs that wait leave
pub Waits-started :
    {W : Type 0} (r : Reconciler W)
    → KeepsStatus r
    → (first : StatefulSet) (s t : State W) → CanStart (observe r first s) (view s.instance.status)
    → Waits r (view (upgrade_stateful_set r first s).1.instance.status) (view t.instance.status)
    → view t.instance.status ≡ started s.instance.spec.image.tag (view s.instance.status)
Waits-started r server first s t h waits =
    let v = view s.instance.status in
    let begun = view (upgrade_stateful_set r first s).1.instance.status in
    let begins : begun ≡ started s.instance.spec.image.tag v =
      upgrade_stateful_set-next r server first s ∙ next_start (observe r first s) v h in
    let running = ap (λ (x : View). x.is_upgrading) begins in
    let target = ap (λ (x : View). str_eq x.target "") begins ∙ h.has_tag in
    Waits-same r server begun (view t.instance.status) running target waits ∙ begins

-- Where the API server keeps the status that Status().Update sends: a run of upgradeStatefulSet that
-- sees a ready cluster with another wanted version, a condition Upgrading that is False and a
-- StatefulSet of two revisions, then any number of runs that see two revisions and no deadline
-- passed, and then a run that sees one revision, leave the wanted version of the first run as the
-- current one, no upgrade, no target, and a cluster that is not ready yet; whether an upgrade had
-- failed is as before.
pub upgrade_runs_through :
    {W : Type 0} (r : Reconciler W)
    → KeepsStatus r
    → (first last : StatefulSet) (s t : State W)
    → CanStart (observe r first s) (view s.instance.status)
    → Waits r (view (upgrade_stateful_set r first s).1.instance.status) (view t.instance.status)
    → (observe r last t).rolled_out ≡ true
    → view (upgrade_stateful_set r last t).1.instance.status ≡ record (view s.instance.status) {
      is_upgrading = false;
      is_ready = false;
      current = s.instance.spec.image.tag;
      target = "";
    }
upgrade_runs_through r server first last s t h waits rolled =
    let same = Waits-started r server first s t h waits in
    upgrade_stateful_set-next r server last t
    ∙ next_end (observe r last t) (view t.instance.status) (ap (λ (x : View). x.is_upgrading) same)
        (ap (λ (x : View). str_eq x.target "") same ∙ h.has_tag) rolled
    ∙ ap (λ (x : View). record x { is_upgrading = false; current = x.target; target = "" }) same

next_late :
    (o : Observation) (v : View)
    → v.is_upgrading ≡ true
    → str_eq v.target "" ≡ false
    → o.rolled_out ≡ false
    → o.is_late ≡ true
    → next o v ≡ record v { has_failed = true }
next_late o v running target rolling late = next_when o v running ∙ rw (target, rolling, late)

-- a run that sees two revisions and a deadline that has passed
pub upgrade_times_out :
    {W : Type 0} (r : Reconciler W)
    → KeepsStatus r
    → (first last : StatefulSet) (s t : State W)
    → CanStart (observe r first s) (view s.instance.status)
    → Waits r (view (upgrade_stateful_set r first s).1.instance.status) (view t.instance.status)
    → (observe r last t).rolled_out ≡ false
    → (observe r last t).is_late ≡ true
    → view (upgrade_stateful_set r last t).1.instance.status
      ≡ record (started s.instance.spec.image.tag (view s.instance.status)) { has_failed = true }
upgrade_times_out r server first last s t h waits rolling late =
    let same = Waits-started r server first s t h waits in
    upgrade_stateful_set-next r server last t
    ∙ next_late (observe r last t) (view t.instance.status) (ap (λ (x : View). x.is_upgrading) same)
        (ap (λ (x : View). str_eq x.target "") same ∙ h.has_tag) rolling late
    ∙ ap (λ (x : View). record x { has_failed = true }) same

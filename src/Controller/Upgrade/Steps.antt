-- ===== src/Controller/Upgrade/Steps.antt =====
-- upgradeStatefulSet as a step of a small state machine on the view of the status.
use zookeeper_operator.Prelude.{
  String, str_eq, Bool, true, false, ◌&&◌, not, Option, none, some, if◌then◌else◌, ◌≡◌, refl,
  Bool-cases, inl, inr, ◌∙◌, ap,
}
use zookeeper_operator.Std.Strconv.{itoa}
use zookeeper_operator.Kube.Objects.{StatefulSet, StatefulSetStatus}
use zookeeper_operator.Api.Types.{ZookeeperCluster}
use zookeeper_operator.Api.Status.{
  ClusterCondition, ZookeeperClusterStatus, condition, upgrading, condition_false,
  updating_zookeeper_reason, set_upgrading_condition_false, set_pods_ready_condition_false,
  is_cluster_in_ready_state,
}
use zookeeper_operator.Api.Status.View.{
  View, view, view-record, view-set_upgrading_true, view-set_upgrading_false,
  view-set_pods_ready_false, view-set_error_true, view-update_progress,
}
use zookeeper_operator.Controller.Interfaces.{Result, ok, err, Reconciler}
use zookeeper_operator.Controller.Op.{State, Op}
use zookeeper_operator.Controller.Upgrade.{
  update_instance_status, read_clock, cleared, clear_upgrade_status, check_sync_timeout,
  start_upgrade, complete_upgrade, time_out, note_progress, follow_upgrade, continue_upgrade,
}

-- what a reconciliation sees of the StatefulSet and of the clock
pub record Observation : Type 0 where
  pub tag : String  -- the wanted version
  pub can_start : Bool  -- the condition Upgrading is there, and False
  pub rolled_out : Bool  -- the current revision is the update revision
  pub is_late : Bool  -- no progress since the last reconciliation, and the deadline has passed

-- one step of a running upgrade
abbrev pub next_running : Observation → View → View
next_running o v =
    if str_eq v.target ""
    then record v { is_upgrading = false; target = "" }
    else if o.rolled_out
    then record v { is_upgrading = false; current = v.target; target = "" }
    else if o.is_late
    then record v { has_failed = true }
    else v

-- one step where no upgrade runs
abbrev pub next_steady : Observation → View → View
next_steady o v =
    if o.can_start && v.is_ready && not o.rolled_out && not (str_eq o.tag v.current)
    then record v { is_upgrading = true; is_ready = false; target = o.tag }
    else v

abbrev pub next : Observation → View → View
next o v = if v.is_upgrading then next_running o v else next_steady o v

module _ {W : Type 0} (r : Reconciler W) where
  -- The status subresource: an accepted status is stored and returned as it was sent.
  pub record KeepsStatus : Type 0 where
    pub kept :
        (z stored : ZookeeperCluster) (w w' : W)
        → r.client.update_status z w ≡ (ok stored, w')
        → stored.status ≡ z.status

  abbrev can_start : Option ClusterCondition → Bool
  can_start none = false
  can_start (some c) = str_eq c.status condition_false

  abbrev is_stalled : Option ClusterCondition → StatefulSetStatus → Bool
  is_stalled none found = false
  is_stalled (some c) found = str_eq (itoa found.updated_replicas) c.message

  abbrev pub observe : StatefulSet → State W → Observation
  observe found s =
      let c = condition s.instance.status upgrading in
      record {
        tag = s.instance.spec.image.tag;
        can_start = can_start c;
        rolled_out = str_eq found.status.current_revision found.status.update_revision;
        is_late =
            is_stalled c found.status
            && check_sync_timeout r s.instance updating_zookeeper_reason
                found.status.updated_replicas 600 s.world;
      }

  abbrev pub after : Op W (Unit {0}) → State W → View
  after m s = view (m s).1.instance.status

  view-cleared :
      (now : String) (zs : ZookeeperClusterStatus)
      → view (cleared r now zs) ≡ record (view zs) { is_upgrading = false; target = "" }
  unfolding cleared
  view-cleared now zs =
      view-record (set_upgrading_condition_false now zs)
        (set_upgrading_condition_false now zs).current_version ""
      ∙ ap (λ (v : View). record v { target = "" }) (view-set_upgrading_false now zs)

  status-clear :
      (s : State W)
      → (clear_upgrade_status r s).1.instance.status
        ≡ cleared r (r.clock.now s.world) s.instance.status
  unfolding clear_upgrade_status
  status-clear s =
      go
        (r.client.clusters.update
          (record s.instance { status = cleared r (r.clock.now s.world) s.instance.status })
          s.world)
        refl
    where
      go :
          (p : Result ZookeeperCluster × W)
          → r.client.clusters.update
              (record s.instance { status = cleared r (r.clock.now s.world) s.instance.status })
              s.world
            ≡ p
          → (clear_upgrade_status r s).1.instance.status
            ≡ cleared r (r.clock.now s.world) s.instance.status
      go (ok z, w) h = rw h
      go (err e, w) h = rw h

  pub view-clear :
      (s : State W)
      → after (clear_upgrade_status r) s
        ≡ record (view s.instance.status) { is_upgrading = false; target = "" }
  view-clear s = ap view (status-clear s) ∙ view-cleared (r.clock.now s.world) s.instance.status

  module _ (server : KeepsStatus) where
    pub status-update :
        (s : State W) → (update_instance_status r s).1.instance.status ≡ s.instance.status
    unfolding update_instance_status
    status-update s = go (r.client.update_status s.instance s.world) refl
      where
        go :
            (p : Result ZookeeperCluster × W)
            → r.client.update_status s.instance s.world ≡ p
            → (update_instance_status r s).1.instance.status ≡ s.instance.status
        go (ok z, w) h = rw h (server.kept s.instance z s.world w h)
        go (err e, w) h = rw h

    view-time_out :
        (s : State W) → after (time_out r) s ≡ record (view s.instance.status) { has_failed = true }
    unfolding time_out update_instance_status read_clock
    view-time_out s =
        ap view (status-update _)
        ∙ view-set_error_true (r.clock.now s.world) s.instance.status "progress deadline exceeded"

    view-note_progress :
        (n : String) (s : State W) → after (note_progress r n) s ≡ view s.instance.status
    unfolding note_progress update_instance_status read_clock
    view-note_progress n s =
        ap view (status-update _)
        ∙ view-update_progress (r.clock.now s.world) updating_zookeeper_reason n s.instance.status

    view_complete :
        (s : State W)
        → after (complete_upgrade r) s ≡ record (view s.instance.status) {
          is_upgrading = false;
          current = s.instance.status.target_version;
          target = "";
        }
    unfolding complete_upgrade
    view_complete s =
        view-clear (record s {
          instance = record s.instance {
            status = record s.instance.status {
              current_version = s.instance.status.target_version;
            };
          };
        })
        ∙ ap (λ (v : View). record v { is_upgrading = false; target = "" })
            (view-record s.instance.status s.instance.status.target_version
              s.instance.status.target_version)

    view-follow :
        (c : ClusterCondition) (found : StatefulSetStatus) (s : State W)
        → after (follow_upgrade r c found) s ≡ (
            if str_eq (itoa found.updated_replicas) c.message
              && check_sync_timeout r s.instance updating_zookeeper_reason found.updated_replicas
                  600 s.world
            then record (view s.instance.status) { has_failed = true }
            else view s.instance.status)
    unfolding follow_upgrade
    view-follow c found s = elim (Bool-cases (str_eq (itoa found.updated_replicas) c.message)) [
      | inl e ↦
          elim (Bool-cases (
            check_sync_timeout r s.instance updating_zookeeper_reason found.updated_replicas 600
              s.world)) [ inl l ↦ rw (e, l) (view-time_out s) | inr l ↦ rw (e, l) ]
      | inr e ↦ rw e (view-note_progress (itoa found.updated_replicas) s)
    ]

    pub view-continue :
        (c : ClusterCondition) (found : StatefulSetStatus) (s : State W) (o : Observation)
        → o.rolled_out ≡ str_eq found.current_revision found.update_revision
        → o.is_late ≡ (
            str_eq (itoa found.updated_replicas) c.message
            && check_sync_timeout r s.instance updating_zookeeper_reason found.updated_replicas 600
                s.world)
        → after (continue_upgrade r c found) s ≡ next_running o (view s.instance.status)
    unfolding continue_upgrade
    view-continue c found s o p q = elim (Bool-cases (str_eq s.instance.status.target_version "")) [
      | inl e ↦ rw e (view-clear s)
      | inr e ↦
          rw (e, p)
            (elim (Bool-cases (str_eq found.current_revision found.update_revision)) [
              | inl d ↦ rw d (view_complete s)
              | inr d ↦ rw (d, q) (view-follow c found s)
            ])
    ]

    pub view-start :
        (now : String) (z : ZookeeperCluster) (found : StatefulSetStatus)
        → view (start_upgrade r now z found) ≡ (
            if is_cluster_in_ready_state z.status
              && not (str_eq found.current_revision found.update_revision)
              && not (str_eq z.spec.image.tag z.status.current_version)
            then record (view z.status) {
              is_upgrading = true;
              is_ready = false;
              target = z.spec.image.tag;
            }
            else view z.status)
    unfolding start_upgrade
    view-start now z found =
        elim (Bool-cases (
          is_cluster_in_ready_state z.status
          && not (str_eq found.current_revision found.update_revision)
          && not (str_eq z.spec.image.tag z.status.current_version))) [
            | inl e ↦ rw e (
                view-set_upgrading_true now
                  (set_pods_ready_condition_false now
                    (record z.status { target_version = z.spec.image.tag }))
                  "" ""
                ∙ ap (λ (v : View). record v { is_upgrading = true })
                    (view-set_pods_ready_false now
                      (record z.status { target_version = z.spec.image.tag }))
                ∙ ap (λ (v : View). record v { is_upgrading = true; is_ready = false })
                    (view-record z.status z.status.current_version z.spec.image.tag))
            | inr e ↦ rw e
          ]

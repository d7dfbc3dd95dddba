-- ===== src/Controller/Loop/Applied.antt =====
-- What the API server holds after a whole run.
use zookeeper_operator.Prelude.{String, Option, some, ◌≡◌, refl}
use zookeeper_operator.Kube.Meta.{ObjectMeta}
use zookeeper_operator.Kube.Objects.{ConfigMap}
use zookeeper_operator.Api.Types.{ZookeeperCluster}
use zookeeper_operator.Zk.Config.{make_config_map}
use zookeeper_operator.Zk.Sync.{sync_config_map}
use zookeeper_operator.Controller.Interfaces.{Result, ok, err, Resource, Reconciler}
use zookeeper_operator.Controller.Interfaces.Guarded.{Spares, Anything, Anything-IsClosed}
use zookeeper_operator.Controller.Op.{State, ◌>>◌}
use zookeeper_operator.Controller.Services.{reconcile_config_map}
use zookeeper_operator.Controller.Services.Applied.{
  IsHeld, IsHeld-same, IsServer, Outcome, applied, unread, not_created, not_updated, contents_of,
  outside, reconcile_config_map-Outcome,
}
use zookeeper_operator.Controller.Finalizers.{reconcile_finalizers}
use zookeeper_operator.Controller.Loop.{
  requeue_after, reconcile_time, prepare, run_all, others, steps, reconcile,
}
use zookeeper_operator.Controller.Loop.Keeps.{others-Keeps}
use zookeeper_operator.Controller.Loop.Ran.{then-Succeeds, reconcile-Ran}

module _ {W A V : Type 0} (objects : Resource W A) (meta : A → ObjectMeta) (part : A → V)
    (held : String → String → W → Option A) (sync : A → A → A) (a : A) (w : W) where
  Outcome-ok :
      (p : Result (Unit {0}) × W)
      → Outcome objects meta part held sync a w p
      → p.0 ≡ ok tt
      → IsHeld objects meta part held a p.1
  Outcome-ok p (applied h) e = h
  Outcome-ok p (unread g n) e = cc
  Outcome-ok p (not_created g c) e = cc
  Outcome-ok p (not_updated g u) e = cc

module _ {W : Type 0} (r : Reconciler W) (held : String → String → W → Option ConfigMap)
    (server : IsServer r.client.config_maps (λ x. x.meta) contents_of held)
    (owned : (owner m meta : ObjectMeta)
      → r.set_controller_reference owner m ≡ ok meta
      → (meta.namespace ≡ m.namespace) × (meta.name ≡ m.name)) where
  config_map-IsHeld :
      (s : State W)
      → (reconcile_config_map r s).0 ≡ ok tt
      → IsHeld r.client.config_maps
          (λ x. x.meta)
          contents_of
          held
          (make_config_map s.instance)
          (reconcile_config_map r s).1.world
  unfolding reconcile_config_map
  config_map-IsHeld s h =
      go (r.set_controller_reference s.instance.meta (make_config_map s.instance).meta) refl
    where
      go :
          (p : Result ObjectMeta)
          → r.set_controller_reference s.instance.meta (make_config_map s.instance).meta ≡ p
          → IsHeld r.client.config_maps
              (λ x. x.meta)
              contents_of
              held
              (make_config_map s.instance)
              (reconcile_config_map r s).1.world
      go (ok m) e =
          let cm = make_config_map s.instance in
          let key = owned s.instance.meta cm.meta m e in
          IsHeld-same r.client.config_maps (λ x. x.meta) contents_of held cm
            (record cm { meta = m }) (reconcile_config_map r s).1.world key.0 key.1 refl
            (Outcome-ok r.client.config_maps (λ x. x.meta) contents_of held sync_config_map
              (record cm { meta = m }) s.world (outside (reconcile_config_map r s))
              (reconcile_config_map-Outcome r held server s m e) h)
      go (err x) e = cc

  module _
      (spared : (namespace name : String) (cm : ConfigMap)
        → Spares r Anything (λ w. held namespace name w ≡ some cm)) where
    others-IsHeld :
        (cm : ConfigMap) (s : State W)
        → IsHeld r.client.config_maps (λ x. x.meta) contents_of held cm s.world
        → IsHeld r.client.config_maps
            (λ x. x.meta)
            contents_of
            held
            cm
            (run_all r (others r) s).1.world
    others-IsHeld cm s (b, h, e) =
        let kept = others-Keeps r Anything-IsClosed (spared cm.meta.namespace cm.meta.name b) in
        (b, (kept.at s (tt, h)).1, e)

    steps-IsHeld :
        (s : State W)
        → (run_all r (steps r) s).0 ≡ ok tt
        → IsHeld r.client.config_maps
            (λ x. x.meta)
            contents_of
            held
            (make_config_map (reconcile_finalizers r s).1.instance)
            (run_all r (steps r) s).1.world
    unfolding steps run_all
    steps-IsHeld s h =
        let cleaned =
          then-Succeeds (reconcile_finalizers r) (reconcile_config_map r >> run_all r (others r)) s
            h in
        let t = (reconcile_finalizers r s).1 in
        let stored =
          then-Succeeds (reconcile_config_map r) (run_all r (others r)) t cleaned.second in
        rw (cleaned.ends, stored.ends)
          (others-IsHeld (make_config_map t.instance) (reconcile_config_map r t).1
            (config_map-IsHeld t stored.first))

    -- Where an accepted write of a config map is stored, the owner's reference keeps namespace and
    -- name, and no call but a write of a config map changes the config map that the server holds under
    -- any key: if a run of Reconcile answers that it is to be run again after 30 seconds, which is its
    -- answer where all eight functions succeeded, then the server holds, at the end of the run, the
    -- config map with exactly the generated files and binary data for the cluster that reconcileFinalizers
    -- left in memory.
    pub reconcile-IsHeld :
        (namespace name : String) (w : W) (found : ZookeeperCluster)
        → r.client.clusters.get namespace name w ≡ ok found
        → (reconcile r namespace name w).0 ≡ requeue_after reconcile_time
        → let z = (prepare r (r.clock.today w) found).0 in
          IsHeld r.client.config_maps
            (λ x. x.meta)
            contents_of
            held
            (make_config_map
              (reconcile_finalizers r (record { instance = z; world = w })).1.instance)
            (reconcile r namespace name w).1
    reconcile-IsHeld namespace name w found h k =
        let z = (prepare r (r.clock.today w) found).0 in
        let ran = reconcile-Ran r namespace name w found h k in
        rw ran.ends (steps-IsHeld (record { instance = z; world = w }) ran.succeeds)

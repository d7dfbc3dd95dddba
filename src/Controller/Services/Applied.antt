-- ===== src/Controller/Services/Applied.antt =====
-- What the API server holds after a run that reconciles a service or the config map.
use zookeeper_operator.Prelude.{
  String, Bool, true, false, Option, some, List, ◌≡◌, refl, sym, ap, ◌∙◌,
}
use zookeeper_operator.Prelude.Dict.{Dict}
use zookeeper_operator.Kube.Meta.{ObjectMeta}
use zookeeper_operator.Kube.Objects.{Service, ServicePort, ConfigMap}
use zookeeper_operator.Api.Types.{ZookeeperCluster}
use zookeeper_operator.Zk.Config.{make_config_map}
use zookeeper_operator.Zk.Services.{
  make_client_service, make_headless_service, make_admin_server_service,
}
use zookeeper_operator.Zk.Sync.{sync_service, sync_config_map}
use zookeeper_operator.Controller.Interfaces.{
  Error, not_found, failure, panic, Result, ok, err, Resource, Reconciler,
}
use zookeeper_operator.Controller.Op.{State, Op}
use zookeeper_operator.Controller.Services.{
  store, reconcile_service, reconcile_client_service, reconcile_headless_service,
  reconcile_admin_server_service, reconcile_config_map,
}

abbrev pub is_not_found : Error → Bool
is_not_found (not_found t) = true
is_not_found (failure t) = false
is_not_found panic = false

-- an answer with what lies outside of the operator
abbrev pub outside : {W A : Type 0} → Result A × State W → Result A × W
outside (r, s) = (r, s.world)

-- `held ns n w` is the object that the API server holds under a namespace and a name. The client may
-- answer a Get from an older copy.
module _ {W A V : Type 0} (objects : Resource W A) (meta : A → ObjectMeta) (part : A → V)
    (held : String → String → W → Option A) where
  -- The object `a` is held under its own key, at least in its part.
  abbrev pub IsHeld : A → W → Type 0
  IsHeld a w = (b : A) × (held (meta a).namespace (meta a).name w ≡ some b) × (part b ≡ part a)

  -- A Get answers with an object of the key it is asked for, and an accepted write is stored.
  pub record IsServer : Type 0 where
    pub finds_namespace :
        (ns n : String) (w : W) (a : A) → objects.get ns n w ≡ ok a → (meta a).namespace ≡ ns
    pub finds_name : (ns n : String) (w : W) (a : A) → objects.get ns n w ≡ ok a → (meta a).name ≡ n
    pub creates : (a b : A) (w v : W) → objects.create a w ≡ (ok b, v) → IsHeld a v
    pub updates : (a b : A) (w v : W) → objects.update a w ≡ (ok b, v) → IsHeld a v

  -- What a run makes of the wanted object, which starts at `w`: it ends without an error and the
  -- server holds the object, or the Get failed, or the server refused the one write.
  pub data Outcome (sync : A → A → A) (a : A) (w : W) : Result (Unit {0}) × W → Type 0 where
    applied : {v : W} → IsHeld a v → Outcome sync a w (ok tt, v)
    unread :
        {e : Error}
        → objects.get (meta a).namespace (meta a).name w ≡ err e
        → is_not_found e ≡ false
        → Outcome sync a w (err e, w)
    not_created :
        {e : Error} {t : String} {v : W}
        → objects.get (meta a).namespace (meta a).name w ≡ err (not_found t)
        → objects.create a w ≡ (err e, v)
        → Outcome sync a w (err e, v)
    not_updated :
        {e : Error} {found : A} {v : W}
        → objects.get (meta a).namespace (meta a).name w ≡ ok found
        → objects.update (sync found a) w ≡ (err e, v)
        → Outcome sync a w (err e, v)

  -- an object found under the key of `a` and brought to the part of `a` is `a` to the server
  pub IsHeld-same :
      (a b : A) (w : W)
      → (meta b).namespace ≡ (meta a).namespace
      → (meta b).name ≡ (meta a).name
      → part b ≡ part a
      → IsHeld b w
      → IsHeld a w
  IsHeld-same a b w ns n p (c, h, q) = (
    c,
    ap (λ (x : String). held x (meta a).name w) (sym ns)
        ∙ ap (λ (x : String). held (meta b).namespace x w) (sym n)
        ∙ h,
    q ∙ p,
  )

  module _ (server : IsServer) (sync : A → A → A) (then_do : A → Op W (Unit {0}))
      (synced : (b a : A) → part (sync b a) ≡ part a)
      (same_namespace : (b a : A) → (meta (sync b a)).namespace ≡ (meta b).namespace)
      (same_name : (b a : A) → (meta (sync b a)).name ≡ (meta b).name)
      (quiet : (a : A) (s : State W) → outside (then_do a s) ≡ (ok tt, s.world)) where
    store-Outcome :
        (a : A) (s : State W)
        → Outcome sync a s.world (
            outside (
              store objects sync then_do a
                (objects.get (meta a).namespace (meta a).name s.world)
                s))
    unfolding store
    store-Outcome a s = read (objects.get (meta a).namespace (meta a).name s.world) refl
      where
        created :
            (t : String)
            → objects.get (meta a).namespace (meta a).name s.world ≡ err (not_found t)
            → (p : Result A × W) → objects.create a s.world ≡ p
            → Outcome sync a s.world (outside (store objects sync then_do a (err (not_found t)) s))
        created t g (ok b, v) h = rw h (applied (server.creates a b s.world v h))
        created t g (err e, v) h = rw h (not_created g h)

        updated :
            (found : A)
            → objects.get (meta a).namespace (meta a).name s.world ≡ ok found
            → (p : Result A × W) → objects.update (sync found a) s.world ≡ p
            → Outcome sync a s.world (outside (store objects sync then_do a (ok found) s))
        updated found g (ok b, v) h =
            let ns = server.finds_namespace (meta a).namespace (meta a).name s.world found g in
            let n = server.finds_name (meta a).namespace (meta a).name s.world found g in
            rw (h, quiet b)
              (applied (
                IsHeld-same a (sync found a) v (same_namespace found a ∙ ns) (same_name found a ∙ n)
                  (synced found a) (server.updates (sync found a) b s.world v h)))
        updated found g (err e, v) h = rw h (not_updated g h)

        read :
            (found : Result A)
            → objects.get (meta a).namespace (meta a).name s.world ≡ found
            → Outcome sync a s.world (outside (store objects sync then_do a found s))
        read (err (not_found t)) g = created t g (objects.create a s.world) refl
        read (err (failure t)) g = unread g refl
        read (err panic) g = unread g refl
        read (ok found) g = updated found g (objects.update (sync found a) s.world) refl

-- the part of a service that a run brings to the wanted one: its ports and annotations
abbrev pub exposed : Service → List ServicePort × Option Dict
exposed svc = (svc.spec.ports, svc.meta.annotations)

abbrev pub contents_of : ConfigMap → Dict × Option Dict
contents_of cm = (cm.contents, cm.binary_data)

-- the three services of a cluster
pub data Access : Type 0 where
  client : Access
  headless : Access
  admin_server : Access

abbrev pub make_of : Access → ZookeeperCluster → Service
make_of client = make_client_service
make_of headless = make_headless_service
make_of admin_server = make_admin_server_service

abbrev pub run_of : {W : Type 0} → Access → Reconciler W → Op W (Unit {0})
run_of client r = reconcile_client_service r
run_of headless r = reconcile_headless_service r
run_of admin_server r = reconcile_admin_server_service r

module _ {W : Type 0} (r : Reconciler W) where
  service-Outcome :
      (held : String → String → W → Option Service)
      → IsServer r.client.services (λ x. x.meta) exposed held
      → (make : ZookeeperCluster → Service) (then_do : Service → Op W (Unit {0}))
      → ((svc : Service) (s : State W) → outside (then_do svc s) ≡ (ok tt, s.world))
      → (s : State W) (m : ObjectMeta)
      → r.set_controller_reference s.instance.meta (make s.instance).meta ≡ ok m
      → Outcome r.client.services
          (λ x. x.meta)
          exposed
          held
          sync_service
          (record (make s.instance) { meta = m })
          s.world
          (outside (reconcile_service r make then_do s))
  unfolding reconcile_service sync_service
  service-Outcome held server make then_do quiet s m h = rw h (
      store-Outcome r.client.services (λ x. x.meta) exposed held server sync_service then_do
        (λ b a. refl) (λ b a. refl) (λ b a. refl) quiet (record (make s.instance) { meta = m }) s)

  -- For each of the three services, where an accepted write is stored and the owner can be set: the run
  -- ends without an error and the server holds, under the wanted service's namespace and name, a service
  -- with its ports and annotations; or the Get failed with another error than not found and nothing
  -- was written; or the server refused the run's one write, a Create where the Get answered not found
  -- and an Update of the found service where it did not, and the run ends with that error.
  pub services-Outcome :
      (held : String → String → W → Option Service)
      → IsServer r.client.services (λ x. x.meta) exposed held
      → (k : Access) (s : State W) (m : ObjectMeta)
      → r.set_controller_reference s.instance.meta (make_of k s.instance).meta ≡ ok m
      → Outcome r.client.services
          (λ x. x.meta)
          exposed
          held
          sync_service
          (record (make_of k s.instance) { meta = m })
          s.world
          (outside (run_of k r s))
  unfolding reconcile_client_service reconcile_headless_service reconcile_admin_server_service
  services-Outcome held server client =
      service-Outcome held server make_client_service _ (λ svc s. refl)
  services-Outcome held server headless =
      service-Outcome held server make_headless_service _ (λ svc s. refl)
  services-Outcome held server admin_server =
      service-Outcome held server make_admin_server_service _ (λ svc s. refl)

  -- Where an accepted write is stored and the owner can be set: the run of the config map ends without
  -- an error and the server holds, under the wanted namespace and name, a config map with exactly the
  -- generated files and binary data; or the Get failed with another error than not found and nothing
  -- was written; or the server refused the run's one write, a Create where the Get answered not found
  -- and an Update of the found config map where it did not, and the run ends with that error.
  pub reconcile_config_map-Outcome :
      (held : String → String → W → Option ConfigMap)
      → IsServer r.client.config_maps (λ x. x.meta) contents_of held
      → (s : State W) (m : ObjectMeta)
      → r.set_controller_reference s.instance.meta (make_config_map s.instance).meta ≡ ok m
      → Outcome r.client.config_maps
          (λ x. x.meta)
          contents_of
          held
          sync_config_map
          (record (make_config_map s.instance) { meta = m })
          s.world
          (outside (reconcile_config_map r s))
  unfolding reconcile_config_map sync_config_map
  reconcile_config_map-Outcome held server s m h = rw h (
      store-Outcome r.client.config_maps (λ x. x.meta) contents_of held server sync_config_map
        (λ stored s. (ok tt, s)) (λ b a. refl) (λ b a. refl) (λ b a. refl) (λ stored s. refl)
        (record (make_config_map s.instance) { meta = m }) s)

-- ===== src/Scenarios/Shelves.antt =====
-- An API server with room for one service, one config map and one StatefulSet, and runs on it.
use zookeeper_operator.Prelude.{
  String, str_eq, eq_iff, true, false, ◌&&◌, Option, none, some, [], pos, ◌≡◌, refl, sym, ap, ◌∙◌,
  arith, if◌then◌else◌,
}
use zookeeper_operator.Kube.Meta.{ObjectMeta}
use zookeeper_operator.Kube.Objects.{Service, ConfigMap, StatefulSet}
use zookeeper_operator.Zk.Config.{make_config_map}
use zookeeper_operator.Zk.Sync.{sync_service, sync_config_map}
use zookeeper_operator.Controller.Interfaces.{
  not_found, failure, Result, ok, err, Resource, Reconciler,
}
use zookeeper_operator.Controller.Op.{State}
use zookeeper_operator.Controller.Services.{reconcile_config_map}
use zookeeper_operator.Controller.Services.Applied.{
  IsHeld, IsServer, Outcome, client as client_service, make_of, run_of, exposed, contents_of,
  outside, services-Outcome, reconcile_config_map-Outcome,
}
use zookeeper_operator.Scenarios.Data.{cluster}

pub record Shelf : Type 0 where
  pub service : Option Service
  pub config_map : Option ConfigMap
  pub stateful_set : Option StatefulSet

module _ {A : Type 0} (meta : A → ObjectMeta) where
  abbrev pub find : String → String → Option A → Option A
  find ns n none = none
  find ns n (some a) =
      if str_eq (meta a).namespace ns && str_eq (meta a).name n then some a else none

  found :
      (ns n : String) (x : Option A) (a : A)
      → find ns n x ≡ some a
      → ((meta a).namespace ≡ ns) × ((meta a).name ≡ n)
  found ns n none a h = ground arith
  found ns n (some b) a h = ground (arith, eq_iff (meta b).namespace ns, eq_iff (meta b).name n)

  find-own : (a : A) → find (meta a).namespace (meta a).name (some a) ≡ some a
  find-own a =
      ground
        (arith, eq_iff (meta a).namespace (meta a).namespace, eq_iff (meta a).name (meta a).name)

  abbrev pub answer_of : String → Option A → Result A
  answer_of n none = err (not_found n)
  answer_of n (some a) = ok a

  answer_of-ok : (n : String) (x : Option A) (a : A) → answer_of n x ≡ ok a → x ≡ some a
  answer_of-ok n none a h = cc
  answer_of-ok n (some b) a h = cc

  -- the place of the shelf for one kind of object
  abbrev pub place : (see : Shelf → Option A) → (A → Shelf → Shelf) → Resource Shelf A
  place see set = record {
    get = λ ns n w. answer_of n (find ns n (see w));
    create = λ a w. (ok a, set a w);
    update = λ a w. (ok a, set a w);
  }

  written :
      {V : Type 0} (part : A → V) (see : Shelf → Option A) (a b : A) (w v : Shelf)
      → see w ≡ some a
      → ◌≡◌ {A = Result A × Shelf} (ok a, w) (ok b, v)
      → IsHeld (place see (λ a w. w)) meta part (λ ns n w. find ns n (see w)) a v
  written part see a b w v h e =
      let same : w ≡ v = ap (λ (x : Result A × Shelf). x.1) e in
      (
        a,
        ap (λ (x : Shelf). find (meta a).namespace (meta a).name (see x)) (sym same)
            ∙ ap (find (meta a).namespace (meta a).name) h
            ∙ find-own a,
        refl,
      )

  pub place-IsServer :
      {V : Type 0} (part : A → V) (see : Shelf → Option A) (set : A → Shelf → Shelf)
      → ((a : A) (w : Shelf) → see (set a w) ≡ some a)
      → IsServer (place see set) meta part (λ ns n w. find ns n (see w))
  place-IsServer part see set seen = record {
    finds_namespace =
        λ ns n w a h. (found ns n (see w) a (answer_of-ok n (find ns n (see w)) a h)).0;
    finds_name = λ ns n w a h. (found ns n (see w) a (answer_of-ok n (find ns n (see w)) a h)).1;
    creates = λ a b w v h. written part see a b (set a w) v (seen a w) h;
    updates = λ a b w v h. written part see a b (set a w) v (seen a w) h;
  }

-- a write is accepted and forgotten
abbrev pub nothing : {A : Type 0} → Resource Shelf A
nothing = record {
  get = λ namespace name w. err (not_found name);
  create = λ a w. (ok a, w);
  update = λ a w. (ok a, w);
}

abbrev pub operator : Reconciler Shelf
operator = record {
  client = record {
    clusters = nothing;
    update_status = λ z w. (ok z, w);
    stateful_sets =
        place (λ sts. sts.meta) (λ w. w.stateful_set)
          (λ sts w. record w { stateful_set = some sts });
    services = place (λ svc. svc.meta) (λ w. w.service) (λ svc w. record w { service = some svc });
    config_maps =
        place (λ cm. cm.meta) (λ w. w.config_map) (λ cm w. record w { config_map = some cm });
    budgets = nothing;
    service_accounts = nothing;
    list_pods = λ namespace labels w. ok [];
    list_pvcs = λ namespace labels w. ok [];
    delete_pvc = λ namespace name w. (ok tt, w);
  };
  zk_client = record {
    connect = λ uri w. (err (failure "refused"), w);
    create_node = λ z path w. (ok tt, w);
    node_exists = λ path w. (ok (pos 0), w);
    update_node = λ path value version w. (ok tt, w);
    close = λ w. w;
  };
  clock = record { now = λ w. "now"; today = λ w. "today"; is_past = λ t n w. true };
  set_controller_reference = λ owner m. ok m;
  is_zero = λ q. false;
  disable_finalizer = false;
}

-- a config map of an older spec, and no service
abbrev start : State Shelf
start = record {
  instance = cluster;
  world = record {
    service = none;
    config_map = some (record (make_config_map cluster) { contents = [] });
    stateful_set = none;
  };
}

services-Outcome_example :
    Outcome operator.client.services
      (λ x. x.meta)
      exposed
      (λ ns n w. find (λ x. x.meta) ns n w.service)
      sync_service
      (make_of client_service cluster)
      start.world
      (outside (run_of client_service operator start))
services-Outcome_example =
    services-Outcome operator (λ ns n w. find (λ x. x.meta) ns n w.service)
      (place-IsServer (λ x. x.meta) exposed (λ w. w.service)
        (λ svc w. record w { service = some svc }) (λ a w. refl))
      client_service start (make_of client_service cluster).meta refl

reconcile_config_map-Outcome_example :
    Outcome operator.client.config_maps
      (λ x. x.meta)
      contents_of
      (λ ns n w. find (λ x. x.meta) ns n w.config_map)
      sync_config_map
      (make_config_map cluster)
      start.world
      (outside (reconcile_config_map operator start))
reconcile_config_map-Outcome_example =
    reconcile_config_map-Outcome operator (λ ns n w. find (λ x. x.meta) ns n w.config_map)
      (place-IsServer (λ x. x.meta) contents_of (λ w. w.config_map)
        (λ cm w. record w { config_map = some cm }) (λ a w. refl))
      start (make_config_map cluster).meta refl

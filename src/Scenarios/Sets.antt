-- ===== src/Scenarios/Sets.antt =====
-- An API server that fills in the defaults of a StatefulSet before it stores it.
use zookeeper_operator.Prelude.{ℤ, pos, eq_ℤ, str_eq, Option, none, some, map, refl, if◌then◌else◌}
use zookeeper_operator.Kube.Objects.{StatefulSet}
use zookeeper_operator.Kube.Pods.{ExecProbe, Container}
use zookeeper_operator.Controller.Interfaces.{ok, Resource}
use zookeeper_operator.Controller.StatefulSets.Whole.Applied.{Rollout, rolled, StoresSets}
use zookeeper_operator.Scenarios.Shelves.{Shelf, find, place, place-IsServer}

-- successThreshold is 1 where it is left out
abbrev fill_probe : Option ExecProbe → Option ExecProbe
fill_probe none = none
fill_probe (some p) = some (record p {
  success_threshold = if eq_ℤ p.success_threshold (pos 0) then pos 1 else p.success_threshold;
})

abbrev fill_container : Container → Container
fill_container c = record c {
  readiness_probe = fill_probe c.readiness_probe;
  liveness_probe = fill_probe c.liveness_probe;
}

abbrev or_one : Option ℤ → ℤ
or_one none = pos 1
or_one (some n) = n

abbrev pub admit : Rollout → Rollout
admit (replicas, template, strategy) = (
  some (or_one replicas),
  record template {
    spec = record template.spec { containers = map fill_container template.spec.containers };
  },
  if str_eq strategy "" then "RollingUpdate" else strategy,
)

abbrev filled : StatefulSet → StatefulSet
filled sts =
    let (replicas, template, strategy) = admit (rolled sts) in
    record sts {
      spec = record sts.spec {
        replicas = replicas;
        template = template;
        update_strategy = strategy;
      };
    }

abbrev put : StatefulSet → Shelf → Shelf
put sts w = record w { stateful_set = some sts }

abbrev pub sets : Resource Shelf StatefulSet
sets = record (place (λ x. x.meta) (λ w. w.stateful_set) put) {
  create = λ a w. (ok (filled a), put (filled a) w);
  update = λ a w. (ok (filled a), put (filled a) w);
}

pub sets-StoresSets : StoresSets (λ ns n w. find (λ x. x.meta) ns n w.stateful_set) admit sets
sets-StoresSets =
    let server = place-IsServer (λ x. x.meta) rolled (λ w. w.stateful_set) put (λ a w. refl) in
    record {
      finds_namespace = server.finds_namespace;
      finds_name = server.finds_name;
      creates = λ a b w v h. server.creates (filled a) b w v h;
      updates = λ a b w v h. server.updates (filled a) b w v h;
    }

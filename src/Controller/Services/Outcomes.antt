-- ===== src/Controller/Services/Outcomes.antt =====
-- What a run of the client service's reconciliation writes, and which endpoints it notes.
use zookeeper_operator.Prelude.{
  ℤ, String, str_eq, ◌&◌, Option, none, some, List, [], ◌∷◌, ◌≡◌, refl, Bool-cases, inl, inr,
  if◌then◌else◌,
}
use zookeeper_operator.Prelude.Dict.{or_else}
use zookeeper_operator.Std.Strconv.{itoa}
use zookeeper_operator.Kube.Meta.{ObjectMeta}
use zookeeper_operator.Kube.Objects.{Service}
use zookeeper_operator.Api.Ports.{zookeeper_ports}
use zookeeper_operator.Zk.Services.{make_client_service}
use zookeeper_operator.Zk.Sync.{sync_service}
use zookeeper_operator.Controller.Interfaces.{ok, Reconciler}
use zookeeper_operator.Controller.Op.{State}
use zookeeper_operator.Controller.Services.{
  store, last_endpoint, note_endpoints, reconcile_service, reconcile_client_service,
}

-- the last address that is not empty
abbrev pub last_given : List String → Option String
last_given [] = none
last_given (ip ∷ ips) = or_else (last_given ips) (if str_eq ip "" then none else some ip)

abbrev pub endpoint_at : ℤ → String → Option String → String
endpoint_at port old none = old
endpoint_at port old (some ip) = ip & ":" & itoa port

endpoint_or_else :
    (port : ℤ) (old : String) (a b : Option String)
    → endpoint_at port (endpoint_at port old b) a ≡ endpoint_at port old (or_else a b)
endpoint_or_else port old none b = refl
endpoint_or_else port old (some ip) b = refl

last_endpoint_lem :
    (port : ℤ) (ips : List String) (old : String)
    → last_endpoint port ips old ≡ endpoint_at port old (last_given ips)
unfolding last_endpoint
last_endpoint_lem port [] old = refl
last_endpoint_lem port (ip ∷ ips) old = elim (Bool-cases (str_eq ip "")) [
  | inl h ↦ rw (h, last_endpoint_lem port ips) (endpoint_or_else port old (last_given ips) none)
  | inr h ↦
      rw (h, last_endpoint_lem port ips) (endpoint_or_else port old (last_given ips) (some ip))
]

-- Where the client service is found and the update accepted, the run does that one write, of the found
-- service with the wanted ports, type and annotations, and changes nothing of the instance but the two
-- endpoints: the internal one is the stored cluster address with the client's port; the external one
-- is, for a load balancer, the last ingress address that is not empty with that port (and the old
-- endpoint if there is none), and "N/A" for any other service.
pub reconcile_client_service_found :
    {W : Type 0} (r : Reconciler W) (s : State W) (meta : ObjectMeta) (found stored : Service)
    (w : W)
    → let z = s.instance in
      let wanted = record (make_client_service z) { meta = meta } in
      let port = (zookeeper_ports z.spec.ports).client in
      r.set_controller_reference z.meta (make_client_service z).meta ≡ ok meta
      → r.client.services.get meta.namespace meta.name s.world ≡ ok found
      → r.client.services.update (sync_service found wanted) s.world ≡ (ok stored, w)
      → reconcile_client_service r s ≡ (
        ok tt,
        record {
          instance = record z {
            status = record z.status {
              internal_client_endpoint = stored.spec.cluster_ip & ":" & itoa port;
              external_client_endpoint =
                  if str_eq stored.spec.type "LoadBalancer"
                  then endpoint_at port z.status.external_client_endpoint
                      (last_given stored.ingress_ips)
                  else "N/A";
            };
          };
          world = w;
        },
      )
unfolding reconcile_client_service reconcile_service store note_endpoints
reconcile_client_service_found r s meta found stored w h k l = rw (h, k, l, last_endpoint_lem)

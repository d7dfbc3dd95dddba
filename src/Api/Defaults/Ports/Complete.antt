-- ===== src/Api/Defaults/Ports/Complete.antt =====
-- The ports after the defaults, against a list of the missing ones.
use zookeeper_operator.Prelude.{
  String, str_eq, eq_iff, eq_refl, Bool, true, false, ◌||◌, not, ◌&&◌, pos, Option, none, some,
  List, [], ◌∷◌, ◌++◌, ◌≡◌, refl, arith,
}
use mathlib.Core.Bool.{or-false, or-true}
use mathlib.Core.List.{append-nil, append_assoc}
use zookeeper_operator.Kube.Pods.{ContainerPort}
use zookeeper_operator.Api.Defaults.Ports.{
  Found, nothing_found, port_of, note_port, find_ports, add_port, add_ports, default_ports,
  ports_with_defaults,
}

abbrev pub has_port : String → List ContainerPort → Bool
has_port name [] = false
has_port name (p ∷ ports) = str_eq p.name name || has_port name ports

abbrev pub is_empty : List ContainerPort → Bool
is_empty [] = true
is_empty (p ∷ ports) = false

unfoldable pub unless : Bool → ContainerPort → List ContainerPort
unless true d = []
unless false d = d ∷ []

-- those of the given ports whose names do not stand among `ports`
abbrev pub missing : List ContainerPort → List ContainerPort → List ContainerPort
missing ports [] = []
missing ports (d ∷ ds) = unless (has_port d.name ports) d ++ missing ports ds

abbrev seen : Found → (String → Bool) → Found
seen f p = record {
  client = f.client || p "client";
  quorum = f.quorum || p "quorum";
  leader = f.leader || p "leader-election";
  metrics = f.metrics || p "metrics";
  admin = f.admin || p "admin-server";
}

note_port_lem : (f : Found) (name : String) → note_port f name ≡ seen f (str_eq name)
unfolding note_port
note_port_lem f name = ground (
  arith,
  eq_iff name "client",
  eq_iff name "quorum",
  eq_iff name "leader-election",
  eq_iff name "metrics",
  eq_iff name "admin-server",
  eq_iff "client" "quorum",
  eq_iff "client" "leader-election",
  eq_iff "client" "metrics",
  eq_iff "client" "admin-server",
  eq_iff "quorum" "leader-election",
  eq_iff "quorum" "metrics",
  eq_iff "quorum" "admin-server",
  eq_iff "leader-election" "metrics",
  eq_iff "leader-election" "admin-server",
  eq_iff "metrics" "admin-server",
)

find_ports_lem :
    (ports : List ContainerPort) (f : Found)
    → find_ports ports f ≡ seen f (λ name. has_port name ports)
unfolding find_ports
find_ports_lem [] f = ground arith
find_ports_lem (p ∷ ports) f =
    rw (find_ports_lem ports (note_port f p.name), note_port_lem f p.name) (ground arith)

add_port_lem :
    (b : Bool) (d : ContainerPort) (r : List ContainerPort × Bool)
    → add_port b d r ≡ (r.0 ++ unless b d, r.1 || not b)
unfolding add_port unless
add_port_lem true d (ports, changed) = simp (append-nil, or-false)
add_port_lem false d (ports, changed) = simp or-true

is_empty-unless :
    (b : Bool) (d : ContainerPort) (ds : List ContainerPort)
    → is_empty (unless b d ++ ds) ≡ (b && is_empty ds)
unfolding unless
is_empty-unless true d ds = refl
is_empty-unless false d ds = refl

some_missing :
    (c q l m a : Bool)
    → (not c || not q || not l || not m || not a) ≡ not (c && (q && (l && (m && (a && true)))))
some_missing c q l m a = ground arith

add_ports_lem :
    (c q l m a : Bool) (ports : List ContainerPort)
    → add_ports (record { client = c; quorum = q; leader = l; metrics = m; admin = a }) ports ≡ (
      ports
          ++ (unless c (port_of "client" (pos 2181))
              ++ (unless q (port_of "quorum" (pos 2888))
                  ++ (unless l (port_of "leader-election" (pos 3888))
                      ++ (unless m (port_of "metrics" (pos 7000))
                          ++ (unless a (port_of "admin-server" (pos 8080)) ++ []))))),
      not (c && (q && (l && (m && (a && true))))),
    )
unfolding add_ports
add_ports_lem c q l m a ports = simp (add_port_lem, append_assoc, append-nil, some_missing)

-- Where ports are given, the defaults keep them, in their order, and add behind them exactly the
-- default ports whose names are missing; a change is reported exactly if one was.
pub ports_with_defaults_lem :
    (ports : List ContainerPort)
    → ports_with_defaults (some ports)
      ≡ (ports ++ missing ports default_ports, not (is_empty (missing ports default_ports)))
unfolding ports_with_defaults
ports_with_defaults_lem ports =
    rw (find_ports_lem ports nothing_found, add_ports_lem) (simp is_empty-unless)

has_port-append :
    (name : String) (xs ys : List ContainerPort)
    → has_port name (xs ++ ys) ≡ (has_port name xs || has_port name ys)
has_port-append name [] ys = refl
has_port-append name (x ∷ xs) ys = ground (arith, has_port-append name xs ys)

abbrev pub HasAll : List ContainerPort → List ContainerPort → Type 0
HasAll ports [] = Unit
HasAll ports (d ∷ ds) = (has_port d.name ports ≡ true) × HasAll ports ds

-- more ports in between do no harm
HasAll-append :
    (xs ys zs ds : List ContainerPort) → HasAll (xs ++ zs) ds → HasAll (xs ++ (ys ++ zs)) ds
HasAll-append xs ys zs [] h = tt
HasAll-append xs ys zs (d ∷ ds) (h, hs) = (
  rw (has_port-append, has_port-append) (let e = rw has_port-append at h in ground (arith, e)),
  HasAll-append xs ys zs ds hs,
)

has_port-unless :
    (d : ContainerPort) (b : Bool) (xs zs : List ContainerPort)
    → has_port d.name xs ≡ b
    → has_port d.name (xs ++ (unless b d ++ zs)) ≡ true
unfolding unless
has_port-unless d true xs zs h = rw has_port-append (ground (arith, h))
has_port-unless d false xs zs h = rw has_port-append (ground (arith, eq_refl d.name))

missing-HasAll : (ports ds : List ContainerPort) → HasAll (ports ++ missing ports ds) ds
missing-HasAll ports [] = tt
missing-HasAll ports (d ∷ ds) = (
  has_port-unless d (has_port d.name ports) ports (missing ports ds) refl,
  HasAll-append ports (unless (has_port d.name ports) d) (missing ports ds) ds
      (missing-HasAll ports ds),
)

missing_of_HasAll : (ports ds : List ContainerPort) → HasAll ports ds → missing ports ds ≡ []
unfolding unless
missing_of_HasAll ports [] h = refl
missing_of_HasAll ports (d ∷ ds) (h, hs) = rw h (missing_of_HasAll ports ds hs)

-- Whatever ports the specification has, after the defaults there is a port of every default
-- port's name.
pub ports_with_defaults-HasAll :
    (ports : Option (List ContainerPort)) → HasAll (ports_with_defaults ports).0 default_ports
ports_with_defaults-HasAll none =
    unfold ports_with_defaults in (refl, (refl, (refl, (refl, (refl, tt)))))
ports_with_defaults-HasAll (some ports) =
    rw (ports_with_defaults_lem ports) (missing-HasAll ports default_ports)

-- A second call changes nothing and reports no change.
pub ports_settle :
    (ports : Option (List ContainerPort))
    → ports_with_defaults (some (ports_with_defaults ports).0)
      ≡ ((ports_with_defaults ports).0, false)
ports_settle ports = rw (
  ports_with_defaults_lem (ports_with_defaults ports).0,
  missing_of_HasAll _ default_ports (ports_with_defaults-HasAll ports),
  append-nil,
)

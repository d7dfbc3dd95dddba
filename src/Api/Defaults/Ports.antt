-- ===== src/Api/Defaults/Ports.antt =====
-- The block on `Ports` of the specification's `withDefaults`.
pub mod Complete
use zookeeper_operator.Prelude.{
  ℤ, pos, String, str_eq, Bool, true, false, ◌||◌, not, Option, none, some, List, [], ◌∷◌, ◌++◌,
  if◌then◌else◌,
}
use zookeeper_operator.Kube.Json.{empty_object}
use zookeeper_operator.Kube.Pods.{ContainerPort}

-- the five local flags of the loop
pub record Found : Type 0 where
  pub client : Bool
  pub quorum : Bool
  pub leader : Bool
  pub metrics : Bool
  pub admin : Bool

abbrev nothing_found : Found
nothing_found = record {
  client = false;
  quorum = false;
  leader = false;
  metrics = false;
  admin = false;
}

abbrev pub port_of : String → ℤ → ContainerPort
port_of name port = record { name = name; container_port = port; other = empty_object }

note_port : Found → String → Found
note_port found name =
    if str_eq name "client"
    then record found { client = true }
    else if str_eq name "quorum"
    then record found { quorum = true }
    else if str_eq name "leader-election"
    then record found { leader = true }
    else if str_eq name "metrics"
    then record found { metrics = true }
    else if str_eq name "admin-server"
    then record found { admin = true }
    else found

-- the loop over the ports
find_ports : List ContainerPort → Found → Found
find_ports [] found = found
find_ports (p ∷ ports) found = find_ports ports (note_port found p.name)

-- `if !found { s.Ports = append(s.Ports, …); changed = true }`
add_port : Bool → ContainerPort → List ContainerPort × Bool → List ContainerPort × Bool
add_port true port (ports, changed) = (ports, changed)
add_port false port (ports, changed) = (ports ++ port ∷ [], true)

add_ports : Found → List ContainerPort → List ContainerPort × Bool
unfolding add_port
add_ports found ports = add_port found.admin (port_of "admin-server" (pos 8080)) (
    add_port found.metrics (port_of "metrics" (pos 7000)) (
      add_port found.leader (port_of "leader-election" (pos 3888)) (
        add_port found.quorum (port_of "quorum" (pos 2888))
          (add_port found.client (port_of "client" (pos 2181)) (ports, false)))))

abbrev pub default_ports : List ContainerPort
default_ports =
    port_of "client" (pos 2181)
    ∷ port_of "quorum" (pos 2888)
    ∷ port_of "leader-election" (pos 3888)
    ∷ port_of "metrics" (pos 7000)
    ∷ port_of "admin-server" (pos 8080)
    ∷ []

unfoldable pub ports_with_defaults : Option (List ContainerPort) → List ContainerPort × Bool
unfolding find_ports add_ports note_port
ports_with_defaults none = (default_ports, true)
ports_with_defaults (some ports) = add_ports (find_ports ports nothing_found) ports

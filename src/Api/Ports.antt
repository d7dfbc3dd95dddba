-- ===== src/Api/Ports.antt =====
-- api/v1beta1/zookeepercluster_types.go, ZookeeperPorts, and pkg/utils: the two ways in which the
-- program looks a port up by its name. ZookeeperPorts takes the last port of a name, and
-- ContainerPortByName the first.
pub mod Agree
use zookeeper_operator.Prelude.{
  ℤ, pos, String, str_eq, Option, none, some, List, [], ◌∷◌, if◌then◌else◌,
}
use zookeeper_operator.Kube.Pods.{ContainerPort}
use zookeeper_operator.Kube.Objects.{ServicePort}

pub record Ports : Type 0 where
  pub client : ℤ
  pub quorum : ℤ
  pub leader : ℤ
  pub metrics : ℤ
  pub admin_server : ℤ

abbrev no_ports : Ports
no_ports = record {
  client = pos 0;
  quorum = pos 0;
  leader = pos 0;
  metrics = pos 0;
  admin_server = pos 0;
}

note_port : Ports → ContainerPort → Ports
note_port ports p =
    if str_eq p.name "client"
    then record ports { client = p.container_port }
    else if str_eq p.name "quorum"
    then record ports { quorum = p.container_port }
    else if str_eq p.name "leader-election"
    then record ports { leader = p.container_port }
    else if str_eq p.name "metrics"
    then record ports { metrics = p.container_port }
    else if str_eq p.name "admin-server"
    then record ports { admin_server = p.container_port }
    else ports

note_ports : Ports → List ContainerPort → Ports
unfolding note_port
note_ports ports [] = ports
note_ports ports (p ∷ ps) = note_ports (note_port ports p) ps

-- a nil slice has no ports
abbrev pub listed : Option (List ContainerPort) → List ContainerPort
listed none = []
listed (some ps) = ps

-- ZookeeperPorts of a cluster with these ports in its specification
unfoldable pub zookeeper_ports : Option (List ContainerPort) → Ports
unfolding note_ports
zookeeper_ports ports = note_ports no_ports (listed ports)

-- `none` is the error "port not found", beside which the port is 0
unfoldable pub container_port_by_name : List ContainerPort → String → Option ℤ
container_port_by_name [] name = none
container_port_by_name (port ∷ ports) name =
    let rest = container_port_by_name ports name in
    if str_eq port.name name then some port.container_port else rest

-- the port beside the error is dropped or kept by the caller: `cPort` starts at the given value
abbrev pub port_or : ℤ → Option ℤ → ℤ
port_or d none = d
port_or d (some n) = n

-- ServicePortByName of pkg/utils/test_utils.go
unfoldable pub service_port_by_name : List ServicePort → String → Option ServicePort
service_port_by_name [] name = none
service_port_by_name (port ∷ ports) name =
    let rest = service_port_by_name ports name in if str_eq port.name name then some port else rest

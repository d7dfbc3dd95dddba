-- ===== src/Api/Ports/Agree.antt =====
-- The two look-ups of the client's port, side by side.
use zookeeper_operator.Prelude.{
  ℤ, pos, String, str_eq, eq_iff, false, some, List, [], ◌∷◌, if◌then◌else◌, ◌≡◌, refl, arith, ◌≢◌,
  Bool-cases, inl, inr, sym, ◌∙◌,
}
use mathlib.Core.Bool.{true≢false}
use zookeeper_operator.Kube.Pods.{ContainerPort}
use zookeeper_operator.Api.Defaults.Ports.Complete.{has_port}
use zookeeper_operator.Api.Ports.{
  Ports, note_port, note_ports, no_ports, zookeeper_ports, container_port_by_name, port_or,
}

-- the last port of the name, or the given one
abbrev pub last_port : ℤ → List ContainerPort → String → ℤ
last_port d [] name = d
last_port d (p ∷ ps) name = last_port (if str_eq p.name name then p.container_port else d) ps name

module _ (f : Ports) (p : ContainerPort) where
  client-note_port :
      (note_port f p).client ≡ (if str_eq p.name "client" then p.container_port else f.client)
  unfolding note_port
  client-note_port = ground (arith)

client-note_ports :
    (ps : List ContainerPort) (f : Ports)
    → (note_ports f ps).client ≡ last_port f.client ps "client"
unfolding note_ports
client-note_ports [] f = refl
client-note_ports (p ∷ ps) f = rw (client-note_ports ps (note_port f p), client-note_port f p)

-- No two ports have the same name.
abbrev pub HasUniqueNames : List ContainerPort → Type 0
HasUniqueNames [] = Unit
HasUniqueNames (p ∷ ps) = (has_port p.name ps ≡ false) × HasUniqueNames ps

last_port_absent :
    (ps : List ContainerPort) (d : ℤ) (name : String)
    → has_port name ps ≡ false
    → last_port d ps name ≡ d
last_port_absent [] d name h = refl
last_port_absent (p ∷ ps) d name h = elim (Bool-cases (str_eq p.name name)) [
  | inl e ↦ absurd (true≢false (rw e at h))
  | inr e ↦ rw e (last_port_absent ps d name (rw e at h))
]

first_is_last :
    (ps : List ContainerPort) (d : ℤ) (name : String)
    → HasUniqueNames ps
    → port_or d (container_port_by_name ps name) ≡ last_port d ps name
unfolding container_port_by_name
first_is_last [] d name h = refl
first_is_last (p ∷ ps) d name (h, hs) = elim (Bool-cases (str_eq p.name name)) [
  | inl e ↦
      rw e (sym (last_port_absent ps p.container_port name (rw ((eq_iff p.name name).0 e) at h)))
  | inr e ↦ rw e (first_is_last ps d name hs)
]

-- Where no two ports of a specification have one name: the client's port in the struct that
-- ZookeeperPorts returns is the port that ContainerPortByName finds for it, and 0 if there is none.
pub zookeeper_ports_client :
    (ps : List ContainerPort)
    → HasUniqueNames ps
    → (zookeeper_ports (some ps)).client ≡ port_or (pos 0) (container_port_by_name ps "client")
unfolding zookeeper_ports
zookeeper_ports_client ps h =
    client-note_ports ps no_ports ∙ sym (first_is_last ps (pos 0) "client" h)

-- Where two ports are both named for the client, and no other one is, the two look-ups find
-- different ports as soon as the two numbers differ.
pub zookeeper_ports_client_twice :
    (p q : ContainerPort)
    → p.name ≡ "client"
    → q.name ≡ "client"
    → p.container_port ≢ q.container_port
    → (zookeeper_ports (some (p ∷ q ∷ []))).client
      ≢ port_or (pos 0) (container_port_by_name (p ∷ q ∷ []) "client")
unfolding zookeeper_ports container_port_by_name note_port
zookeeper_ports_client_twice p q hp hq ne = rw (hp, hq) (λ e. ne (sym e))

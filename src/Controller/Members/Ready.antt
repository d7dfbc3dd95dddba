-- ===== src/Controller/Members/Ready.antt =====
-- Which members count as ready, and when the condition PodsReady holds.
use zookeeper_operator.Prelude.{
  eq_ℤ, String, Bool, true, false, ◌&&◌, not, arith, List, [], ◌∷◌, ◌++◌, ◌≡◌, ◌∙◌, Bool-cases, inl,
  inr, if◌then◌else◌,
}
use mathlib.Core.List.{append-nil, append_assoc}
use zookeeper_operator.Kube.Pods.{Pod}
use zookeeper_operator.Api.Types.{ZookeeperCluster}
use zookeeper_operator.Api.Status.{MembersStatus}
use zookeeper_operator.Api.Status.View.{view, view-set_pods_ready_true, view-set_pods_ready_false}
use zookeeper_operator.Controller.Members.{all_ready, sort_members, members_of, note_ready}

-- every one of the pod's containers is ready
abbrev pub every : List Bool → Bool
every [] = true
every (c ∷ cs) = c && every cs

abbrev eq_bool : Bool → Bool → Bool
eq_bool true b = b
eq_bool false b = not b

-- the names of the pods whose readiness is `b`
abbrev pub names_where : Bool → List Pod → List String
names_where b [] = []
names_where b (p ∷ pods) =
    if eq_bool b (every p.containers_ready)
    then p.meta.name ∷ names_where b pods
    else names_where b pods

all_ready_lem : (cs : List Bool) (b : Bool) → all_ready cs b ≡ (b && every cs)
unfolding all_ready
all_ready_lem [] b = ground arith
all_ready_lem (c ∷ cs) b = ground (arith, all_ready_lem cs false, all_ready_lem cs b)

sort_members_lem :
    (pods : List Pod) (m : MembersStatus)
    → sort_members pods m ≡ record {
      ready = m.ready ++ names_where true pods;
      unready = m.unready ++ names_where false pods;
    }
unfolding sort_members
sort_members_lem [] m = rw (append-nil m.ready, append-nil m.unready)
sort_members_lem (p ∷ pods) m = elim (Bool-cases (every p.containers_ready)) [
  | inl h ↦
      rw (all_ready_lem p.containers_ready true, h)
        (sort_members_lem pods (record m { ready = m.ready ++ p.meta.name ∷ [] }) ∙ (λ i. record {
          ready = append_assoc m.ready (p.meta.name ∷ []) (names_where true pods) i;
          unready = m.unready ++ names_where false pods;
        }))
  | inr h ↦
      rw (all_ready_lem p.containers_ready true, h)
        (sort_members_lem pods (record m { unready = m.unready ++ p.meta.name ∷ [] }) ∙ (λ i.
          record {
            ready = m.ready ++ names_where true pods;
            unready = append_assoc m.unready (p.meta.name ∷ []) (names_where false pods) i;
          }))
]

-- The members of the status are the listed pods' names, each once and in the order of the list: under
-- `ready` the pods all of whose containers are ready, and under `unready` the others.
pub members_of_lem :
    (pods : List Pod)
    → members_of pods ≡ record { ready = names_where true pods; unready = names_where false pods }
unfolding members_of
members_of_lem pods = sort_members_lem pods (record { ready = []; unready = [] })

-- Behind the block that sets it, the condition PodsReady holds exactly when the ready replicas that
-- the status counts are as many as the specification wants; the states of an upgrade and the versions
-- are as before.
pub note_ready_lem :
    (now : String) (z : ZookeeperCluster)
    → view (note_ready now z)
      ≡ record (view z.status) { is_ready = eq_ℤ z.status.ready_replicas z.spec.replicas }
unfolding note_ready
note_ready_lem now z = elim (Bool-cases (eq_ℤ z.status.ready_replicas z.spec.replicas)) [
  | inl h ↦ rw h (view-set_pods_ready_true now z.status)
  | inr h ↦ rw h (view-set_pods_ready_false now z.status)
]

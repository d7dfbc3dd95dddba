-- ===== src/Controller/Loop/Versions.antt =====
-- What Reconcile keeps of the versions and of the conditions, over all that it does.
use zookeeper_operator.Prelude.{String, Bool-cases, inl, inr}
use zookeeper_operator.Api.Defaults.{is_blank, fill_text}
use zookeeper_operator.Api.Status.{ZookeeperClusterStatus}
use zookeeper_operator.Api.Status.Closed.{
  current-set_cluster_condition, target-set_cluster_condition,
}
use zookeeper_operator.Api.Status.Unique.{HasUniqueTypes, set_cluster_condition-HasUniqueTypes}
use zookeeper_operator.Controller.Interfaces.{Reconciler}
use zookeeper_operator.Controller.Interfaces.Guarded.{IsClosed, Guards}
use zookeeper_operator.Controller.Loop.{reconcile}
use zookeeper_operator.Controller.Loop.Keeps.{reconcile-G}

-- the versions in the status, and the wanted one
abbrev pub Versions : (String → Type 0) → String → ZookeeperClusterStatus → Type 0
Versions P tag zs = P tag × P zs.current_version × P zs.target_version

fill_text-P : (P : String → Type 0) (v d : String) → P v → P d → P (fill_text v d)
unfolding fill_text
fill_text-P P v d h k = elim (Bool-cases (is_blank v)) [ inl e ↦ rw e k | inr e ↦ rw e h ]

Versions-IsClosed : (P : String → Type 0) → P "" → P "0.2.16" → IsClosed (Versions P)
Versions-IsClosed P empty default = record {
  sets = λ now c zs h. (
    h.0,
    rw (current-set_cluster_condition now c zs) h.1,
    rw (target-set_cluster_condition now c zs) h.2,
  );
  completes = λ zs h. (h.0, h.2, h.2);
  starts = λ zs h. (h.0, h.1, h.0);
  clears = λ zs h. (h.0, h.1, empty);
  begins = λ zs h. (h.0, h.0, h.2);
  fills = λ zs h. (fill_text-P P _ "0.2.16" h.0 default, h.1, h.2);
  moves = λ zs os h k. (k.0, h.1, h.2);
  notes_endpoints = λ a b zs h. h;
  notes_replicas = λ n m zs h. h;
  notes_members = λ m zs h. h;
  notes_meta_root = λ b zs h. h;
}

unique-IsClosed : IsClosed (λ tag zs. HasUniqueTypes zs)
unique-IsClosed = record {
  sets = set_cluster_condition-HasUniqueTypes;
  completes = λ zs h. h;
  starts = λ zs h. h;
  clears = λ zs h. h;
  begins = λ zs h. h;
  fills = λ zs h. h;
  moves = λ zs os h k. h;
  notes_endpoints = λ a b zs h. h;
  notes_replicas = λ n m zs h. h;
  notes_members = λ m zs h. h;
  notes_meta_root = λ b zs h. h;
}

-- The worlds that runs of Reconcile, of any requests, lead to from `w`. In between anybody may change
-- the world in a way that keeps `G`.
pub data History {W : Type 0} (r : Reconciler W) (G : W → Type 0) (w : W) : W → Type 0 where
  start : History r G w w
  reconciled :
      {u : W}
      → History r G w u
      → (namespace name : String) → History r G w (reconcile r namespace name u).1
  changed : {u : W} → History r G w u → (v : W) → (G u → G v) → History r G w v

History-G :
    {W : Type 0} (r : Reconciler W) {J : String → ZookeeperClusterStatus → Type 0} {G : W → Type 0}
    → IsClosed J
    → Guards r J G
    → {w u : W} → History r G w u
    → G w
    → G u
History-G r c g start h = h
History-G r c g (reconciled {u} before namespace name) h =
    reconcile-G r c g namespace name u (History-G r c g before h)
History-G r c g (changed before v k) h = k (History-G r c g before h)

-- Let `P` hold of the empty text and of the default tag. Where the clusters that a server in a state
-- with `G` returns have a wanted tag, a current and a target version with `P`, a write of such a
-- cluster leads to a state with `G` and answers such a cluster, and no other call harms `G`: from a
-- state with `G`, any number of runs of Reconcile, between which others may change the state as long
-- as they keep `G`, lead to a state with `G`, whatever the runs do and however they end.
pub reconcile_keeps_versions :
    {W : Type 0} (r : Reconciler W) (P : String → Type 0) (G : W → Type 0)
    → P ""
    → P "0.2.16"
    → Guards r (Versions P) G
    → (w u : W) → History r G w u
    → G w
    → G u
reconcile_keeps_versions r P G empty default guards w u =
    History-G r (Versions-IsClosed P empty default) guards

-- Where the clusters that a server in a state with `G` returns have no two conditions of one type, a
-- write of such a cluster leads to a state with `G` and answers such a cluster, and no other call
-- harms `G`: from a state with `G`, any number of runs of Reconcile, between which others may change
-- the state as long as they keep `G`, lead to a state with `G`, whatever the runs do and however they
-- end.
pub reconcile_keeps_unique :
    {W : Type 0} (r : Reconciler W) (G : W → Type 0)
    → Guards r (λ tag zs. HasUniqueTypes zs) G
    → (w u : W) → History r G w u
    → G w
    → G u
reconcile_keeps_unique r G guards w u = History-G r unique-IsClosed guards

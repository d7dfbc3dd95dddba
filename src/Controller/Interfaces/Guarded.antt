-- ===== src/Controller/Interfaces/Guarded.antt =====
-- Predicates on the wanted tag and the status that every change of a reconciliation keeps, and servers
-- that keep them.
use zookeeper_operator.Prelude.{ℤ, String, Bool, ◌≡◌}
use zookeeper_operator.Api.Types.{ZookeeperCluster}
use zookeeper_operator.Api.Status.{
  ClusterCondition, MembersStatus, ZookeeperClusterStatus, set_cluster_condition,
}
use zookeeper_operator.Api.Defaults.{fill_text}
use zookeeper_operator.Controller.Interfaces.{
  Result, ok, Resource, Client, ZookeeperClient, Reconciler,
}

-- One field for each kind of change: a condition, the end of an upgrade, its start, its clearing, the
-- first version, the default tag, a status put back into another version of the cluster, and the
-- fields of the status that are no versions.
pub record IsClosed (J : String → ZookeeperClusterStatus → Type 0) : Type 0 where
  pub sets :
      {tag : String} (now : String) (c : ClusterCondition) (zs : ZookeeperClusterStatus)
      → J tag zs
      → J tag (set_cluster_condition now c zs)
  pub completes :
      {tag : String} (zs : ZookeeperClusterStatus)
      → J tag zs
      → J tag (record zs { current_version = zs.target_version })
  pub starts :
      {tag : String} (zs : ZookeeperClusterStatus)
      → J tag zs
      → J tag (record zs { target_version = tag })
  pub clears :
      {tag : String} (zs : ZookeeperClusterStatus)
      → J tag zs
      → J tag (record zs { target_version = "" })
  pub begins :
      {tag : String} (zs : ZookeeperClusterStatus)
      → J tag zs
      → J tag (record zs { current_version = tag })
  pub fills :
      {tag : String} (zs : ZookeeperClusterStatus) → J tag zs → J (fill_text tag "0.2.16") zs
  pub moves :
      {tag other : String} (zs os : ZookeeperClusterStatus) → J tag zs → J other os → J other zs
  pub notes_endpoints :
      {tag : String} (internal external : String) (zs : ZookeeperClusterStatus)
      → J tag zs
      → J tag
          (record zs { internal_client_endpoint = internal; external_client_endpoint = external })
  pub notes_replicas :
      {tag : String} (n m : ℤ) (zs : ZookeeperClusterStatus)
      → J tag zs
      → J tag (record zs { replicas = n; ready_replicas = m })
  pub notes_members :
      {tag : String} (m : MembersStatus) (zs : ZookeeperClusterStatus)
      → J tag zs
      → J tag (record zs { members = m })
  pub notes_meta_root :
      {tag : String} (b : Bool) (zs : ZookeeperClusterStatus)
      → J tag zs
      → J tag (record zs { meta_root_created = b })

abbrev pub On : (String → ZookeeperClusterStatus → Type 0) → ZookeeperCluster → Type 0
On J z = J z.spec.image.tag z.status

-- nothing is asked of the cluster
abbrev pub Anything : String → ZookeeperClusterStatus → Type 0
Anything tag zs = Unit {0}

pub Anything-IsClosed : IsClosed Anything
Anything-IsClosed = record {
  sets = λ now c zs h. tt;
  completes = λ zs h. tt;
  starts = λ zs h. tt;
  clears = λ zs h. tt;
  begins = λ zs h. tt;
  fills = λ zs h. tt;
  moves = λ zs os h k. tt;
  notes_endpoints = λ i e zs h. tt;
  notes_replicas = λ n m zs h. tt;
  notes_members = λ m zs h. tt;
  notes_meta_root = λ b zs h. tt;
}

-- the two writes of one kind of object leave the world well
pub record KeepsWorld {W : Type 0} (G : W → Type 0) {A : Type 0} (objects : Resource W A)
    : Type 0 where
  pub creates : (a : A) (w : W) → G w → G (objects.create a w).1
  pub updates : (a : A) (w : W) → G w → G (objects.update a w).1

-- a cluster that a write answers
pub record Answers {W : Type 0} (J : String → ZookeeperClusterStatus → Type 0) (G : W → Type 0)
    (answer : Result ZookeeperCluster × W) : Type 0 where
  pub leaves : G answer.1
  pub stored : (z : ZookeeperCluster) → answer.0 ≡ ok z → On J z

-- In a world with `G`: a cluster that is read satisfies `J`, and where a cluster that satisfies `J` is
-- sent, the world stays well and what is answered satisfies `J`.
pub record SparesClusters {W : Type 0} (r : Reconciler W)
    (J : String → ZookeeperClusterStatus → Type 0) (G : W → Type 0) : Type 0 where
  pub reads :
      (namespace name : String) (w : W) (z : ZookeeperCluster)
      → G w
      → r.client.clusters.get namespace name w ≡ ok z
      → On J z
  pub stores :
      (z : ZookeeperCluster) (w : W) → On J z → G w → Answers J G (r.client.clusters.update z w)
  pub stores_status :
      (z : ZookeeperCluster) (w : W) → On J z → G w → Answers J G (r.client.update_status z w)

-- no write of a service or of a disruption budget harms
pub record SparesServing {W : Type 0} (client : Client W) (G : W → Type 0) : Type 0 where
  pub services : KeepsWorld G client.services
  pub budgets : KeepsWorld G client.budgets

-- the two, and no other call of the Kubernetes client harms but perhaps a write of a config map
pub record SparesClient {W : Type 0} (r : Reconciler W)
    (J : String → ZookeeperClusterStatus → Type 0) (G : W → Type 0) : Type 0 where
  pub clusters : SparesClusters r J G
  pub stateful_sets : KeepsWorld G r.client.stateful_sets
  pub serving : SparesServing r.client G
  pub service_accounts : KeepsWorld G r.client.service_accounts
  pub deletes_pvc :
      (namespace name : String) (w : W) → G w → G (r.client.delete_pvc namespace name w).1

-- no call of the ensemble's client harms
pub record SparesEnsemble {W : Type 0} (zk : ZookeeperClient W) (G : W → Type 0) : Type 0 where
  pub connects : (uri : String) (w : W) → G w → G (zk.connect uri w).1
  pub creates_node :
      (z : ZookeeperCluster) (path : String) (w : W) → G w → G (zk.create_node z path w).1
  pub sees_node : (path : String) (w : W) → G w → G (zk.node_exists path w).1
  pub updates_node :
      (path value : String) (version : ℤ) (w : W) → G w → G (zk.update_node path value version w).1
  pub closes : (w : W) → G w → G (zk.close w)

-- both
pub record Spares {W : Type 0} (r : Reconciler W) (J : String → ZookeeperClusterStatus → Type 0)
    (G : W → Type 0) : Type 0 where
  pub client : SparesClient r J G
  pub ensemble : SparesEnsemble r.zk_client G

-- the same, and no write of a config map harms
pub record Guards {W : Type 0} (r : Reconciler W) (J : String → ZookeeperClusterStatus → Type 0)
    (G : W → Type 0) : Type 0 where
  pub spares : Spares r J G
  pub config_maps : KeepsWorld G r.client.config_maps

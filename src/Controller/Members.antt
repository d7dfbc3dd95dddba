-- ===== src/Controller/Members.antt =====
-- reconcileClusterStatus: the members, the metadata node, the condition PodsReady.
pub mod Keeps
pub mod Ready
pub mod Sent
pub mod Metadata
pub mod Announced
pub mod Sizes
use zookeeper_operator.Prelude.{
  ℤ, eq_ℤ, String, str_eq, ◌&◌, Bool, true, false, ◌&&◌, ◌||◌, not, List, [], ◌∷◌, ◌++◌,
  if◌then◌else◌,
}
use zookeeper_operator.Kube.Pods.{Pod}
use zookeeper_operator.Api.Types.{ZookeeperCluster}
use zookeeper_operator.Api.Status.{
  MembersStatus, ZookeeperClusterStatus, init, is_cluster_in_upgrade_failed_state,
  is_cluster_in_upgrading_state, is_cluster_in_ready_state, set_pods_ready_condition_true,
  set_pods_ready_condition_false,
}
use zookeeper_operator.Utils.Zookeeper.{get_zk_service_uri, get_meta_path}
use zookeeper_operator.Controller.Interfaces.{failure, describe, Result, ok, err, Reconciler}
use zookeeper_operator.Controller.Op.{
  State, Op, ◌>>=◌, ◌>>◌, pure, gets, call, deferring, modify, modify_status,
}
use zookeeper_operator.Controller.Upgrade.{read_clock, update_instance_status}

-- a pod is ready if all of its containers are
all_ready : List Bool → Bool → Bool
all_ready [] ready = ready
all_ready (c ∷ cs) ready = all_ready cs (if not c then false else ready)

-- the loop over the pods, from the members noted so far
sort_members : List Pod → MembersStatus → MembersStatus
unfolding all_ready
sort_members [] m = m
sort_members (p ∷ pods) m = sort_members pods (
    if all_ready p.containers_ready true
    then record m { ready = m.ready ++ p.meta.name ∷ [] }
    else record m { unready = m.unready ++ p.meta.name ∷ [] })

pub members_of : List Pod → MembersStatus
unfolding sort_members
members_of pods = sort_members pods (record { ready = []; unready = [] })

-- the condition PodsReady and the first current version
pub note_ready : String → ZookeeperCluster → ZookeeperClusterStatus
note_ready now z =
    if eq_ℤ z.status.ready_replicas z.spec.replicas
    then set_pods_ready_condition_true now z.status
    else set_pods_ready_condition_false now z.status

first_version : String → ZookeeperClusterStatus → ZookeeperClusterStatus
first_version tag status =
    if str_eq status.current_version "" && is_cluster_in_ready_state status
    then record status { current_version = tag }
    else status

module _ {W : Type 0} (r : Reconciler W) where
  wrap : (String → String) → Result (Unit {0}) × W → Result (Unit {0}) × W
  wrap text (ok a, w) = (ok a, w)
  wrap text (err e, w) = (err (failure (text (describe e))), w)

  -- the lines from the update of the status to the end; the deferred Close runs behind them
  pub store_status : Op W (Unit {0})
  unfolding note_ready first_version
  store_status = do
    now ← read_clock r
    modify (λ z. record z { status = note_ready now z })
    modify (λ z. record z { status = first_version z.spec.image.tag z.status })
    update_instance_status r

  create_metadata : Op W (Unit {0})
  unfolding wrap
  create_metadata = do
    instance ← gets (λ s. s.instance)
    let path = get_meta_path instance
    call (λ w.
        wrap (λ t. "Error creating cluster metadata path " & path & ", " & t)
          (r.zk_client.create_node instance path w))
    modify_status (λ status. record status { meta_root_created = true })

  -- `If Cluster is in a ready state...`
  pub announce : Op W (Unit {0})
  unfolding wrap create_metadata store_status
  announce = do
    uri ← gets (λ s. get_zk_service_uri s.instance)
    call (λ w.
        wrap (λ t. "Error creating cluster metaroot. Connect to zk failed " & t)
          (r.zk_client.connect uri w))
    deferring r.zk_client.close (do create_metadata; store_status)

  -- what follows the early return
  observe_members : Op W (Unit {0})
  unfolding announce
  observe_members = do
    now ← read_clock r
    modify_status (init now)
    instance ← gets (λ s. s.instance)
    pods ←
        gets (λ s.
          r.client.list_pods instance.meta.namespace (("app", instance.meta.name) ∷ []) s.world)
    listed ← (λ s. (pods, s))
    modify_status (λ status. record status { members = members_of listed })
    pending ← gets (λ s.
        eq_ℤ s.instance.spec.replicas s.instance.status.ready_replicas
        && not s.instance.status.meta_root_created)
    if pending then announce else store_status

  unfoldable pub reconcile_cluster_status : Op W (Unit {0})
  unfolding observe_members
  reconcile_cluster_status = do
    status ← gets (λ s. s.instance.status)
    if is_cluster_in_upgrading_state status || is_cluster_in_upgrade_failed_state status
        then pure tt
        else observe_members

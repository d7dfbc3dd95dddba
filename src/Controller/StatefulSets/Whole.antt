-- ===== src/Controller/StatefulSets/Whole.antt =====
-- reconcileStatefulSet, put together.
pub mod Keeps
pub mod Applied
pub mod Rolled
pub mod Guards
pub mod Recovery
pub mod Lifecycle
use zookeeper_operator.Prelude.{
  String, str_eq, ◌&◌, Bool, true, false, not, Option, none, some, if◌then◌else◌,
}
use zookeeper_operator.Prelude.Dict.{Dict, get, put, entries}
use zookeeper_operator.Kube.Objects.{StatefulSet}
use zookeeper_operator.Api.Types.{ZookeeperCluster}
use zookeeper_operator.Api.Status.{is_cluster_in_upgrade_failed_state}
use zookeeper_operator.Controller.Interfaces.{
  not_found, failure, panic, Result, ok, err, Reconciler,
}
use zookeeper_operator.Controller.Op.{State, Op, ◌>>=◌, ◌>>◌, pure, raise, gets, call, modify}
use zookeeper_operator.Controller.Version.{
  Comparison, less, equal, greater, compare_resource_version,
}
use zookeeper_operator.Controller.StatefulSets.{
  wanted_stateful_set, find_stateful_set, recover_upgrade, reconcile_service_account, apply_size,
}

abbrev with_labels : StatefulSet → Dict → StatefulSet
with_labels sts labels = record sts { meta = record sts.meta { labels = some labels } }

-- a missing label reads as the empty text
abbrev pub text_of : Option String → String
text_of none = ""
text_of (some v) = v

-- the text of the staleness error
abbrev pub staleness : ZookeeperCluster → StatefulSet → String
staleness z found =
    "Staleness: cr.ResourceVersion "
    & z.meta.resource_version
    & " is smaller than labeledRV "
    & text_of (get "owner-rv" (entries found.meta.labels))

module _ {W : Type 0} (r : Reconciler W) where
  -- `foundSts.Labels["owner-rv"] = instance.ResourceVersion`, which panics on a nil map
  note_version : String → StatefulSet → Option Dict → Op W StatefulSet
  note_version version found none = raise panic
  note_version version found (some m) = pure (with_labels found (put "owner-rv" version m))

  -- the check whether the cluster was updated before the StatefulSet
  gate : Comparison → ZookeeperCluster → StatefulSet → Op W StatefulSet
  unfolding note_version
  gate less z found = raise (failure (staleness z found))
  gate equal z found = pure found
  gate greater z found = note_version z.meta.resource_version found found.meta.labels

  -- The new StatefulSet's labels are the specification's own map: MakeStatefulSet assigns z.Spec.Labels,
  -- and Zk/Workloads/Place has that the two are one. So the write of the version through the one is a
  -- write to the other.
  create_stateful_set : StatefulSet → Option Dict → Op W (Unit {0})
  create_stateful_set sts none = raise panic
  create_stateful_set sts (some m) = do
    version ← gets (λ s. s.instance.meta.resource_version)
    modify (λ z. record z { spec = record z.spec { labels = some (put "owner-rv" version m) } })
    stored ← call (r.client.stateful_sets.create (with_labels sts (put "owner-rv" version m)))
    pure tt

  -- the branches on the Get of the StatefulSet
  pub store_stateful_set : StatefulSet → Result StatefulSet → Op W (Unit {0})
  unfolding gate create_stateful_set
  store_stateful_set sts (err (not_found t)) = create_stateful_set sts sts.meta.labels
  store_stateful_set sts (err e) = raise e
  store_stateful_set sts (ok found) = do
    instance ← gets (λ s. s.instance)
    gated ← gate (compare_resource_version instance found) instance found
    apply_size r gated sts

  -- what follows the two blocks on a failed upgrade
  unfoldable pub reconcile_running : Op W (Unit {0})
  unfolding store_stateful_set
  reconcile_running = do
    reconcile_service_account r
    sts ← wanted_stateful_set r
    found ← find_stateful_set r sts
    store_stateful_set sts found

  -- the second test of the failed state, after a recovery that did not return
  unless_failed : Op W (Unit {0})
  unless_failed = do
    failed ← gets (λ s. is_cluster_in_upgrade_failed_state s.instance.status)
    if failed then pure tt else reconcile_running

  unfoldable pub reconcile_stateful_set : Op W (Unit {0})
  unfolding unless_failed
  reconcile_stateful_set = do
    failed ← gets (λ s. is_cluster_in_upgrade_failed_state s.instance.status)
    returned ← if failed then recover_upgrade r else pure false
    if returned then pure tt else unless_failed

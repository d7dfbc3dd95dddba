-- ===== src/Controller/Upgrade/InMemory.antt =====
-- clearUpgradeStatus on a cluster in memory: the status holds slices, and the client writes through
-- the cluster that it is given.
pub mod Copied
use zookeeper_operator.Prelude.{ℕ, suc, String, none, some, List}
use zookeeper_operator.Api.Types.{ZookeeperCluster}
use zookeeper_operator.Api.Status.{ClusterCondition, set_upgrading_condition_false}
use zookeeper_operator.Api.Copies.Status.{
  ZookeeperClusterStatusMemory, status_form, deep_copy_status,
}
use zookeeper_operator.Api.Copies.Kept.{status_after}
use zookeeper_operator.Memory.{Ref, Pointer, Alloc, pure, ◌>>=◌, Writes}
use zookeeper_operator.Controller.Interfaces.{panic, Result, ok, err}

-- A cluster and its status. The status in `rest` is not looked at.
pub record ClusterMemory : Type 0 where
  pub rest : ZookeeperCluster
  pub status : Ref ZookeeperClusterStatusMemory

-- the cluster that a reader finds
abbrev pub value_of : ClusterMemory → ZookeeperCluster
value_of m = record m.rest { status = status_form.value m.status.content }

-- What an accepted Update leaves: the cluster that the server returned, in place of the one that was
-- given, and what was written on the way over lists of texts and of conditions.
pub record Overwritten : Type 0 where
  pub instance : ClusterMemory
  pub texts : Writes (List String)
  pub conditions : Writes (List ClusterCondition)

abbrev pub Update : Type 0 → Type 0
Update W = ClusterMemory → W → Result Overwritten × W

-- The address of a slice, or a new one. An append that moves a slice gives it an address that no one
-- else holds, which no reader can tell from the old one.
place_of : {A : Type 0} → Pointer A → Alloc ℕ
place_of none n = (n, suc n)
place_of (some r) n = (r.at, n)

-- z.Status.SetUpgradingConditionFalse(), which writes the conditions in place, and the target
unfoldable pub clear_status :
    String → ZookeeperClusterStatusMemory → Alloc ZookeeperClusterStatusMemory
unfolding place_of
clear_status now status = do
  at ← place_of status.conditions
  let conditions = (set_upgrading_condition_false now (status_form.value status)).conditions
  pure (record status {
    conditions = some (record { at = at; content = conditions });
    target_version = "";
  })

-- `z.Status = *status` behind the answer of Update. What `status` points to is read after the
-- client's writes.
pub put_back :
    {W : Type 0}
    → ClusterMemory
    → Pointer ZookeeperClusterStatusMemory
    → Result Overwritten × W
    → Result (Unit {0}) × (ClusterMemory × W)
put_back z status (err e, w) = (err e, (z, w))
put_back z none (ok o, w) = (err panic, (o.instance, w))
put_back z (some status) (ok o, w) = (
  ok tt,
  (
    record o.instance {
      status = record o.instance.status {
        content = status_after o.texts o.conditions status.content;
      };
    },
    w,
  ),
)

abbrev pub with_status : ClusterMemory → ZookeeperClusterStatusMemory → ClusterMemory
with_status m status = record m { status = record m.status { content = status } }

-- from the next address that was never given out
pub clear_in_memory :
    {W : Type 0}
    → Update W
    → String
    → ClusterMemory
    → ℕ
    → W
    → Result (Unit {0}) × (ClusterMemory × W)
unfolding clear_status put_back
clear_in_memory update now m n w =
    let (cleared, lo) = clear_status now m.status.content n in
    let z = with_status m cleared in
    let status = (deep_copy_status (some z.status) lo).0 in put_back z status (update z w)

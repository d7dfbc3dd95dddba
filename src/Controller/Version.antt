-- ===== src/Controller/Version.antt =====
-- compareResourceVersion: whether the cluster that the operator has read is older than the one from
-- which it last wrote the StatefulSet.
pub mod Order
use zookeeper_operator.Prelude.{ℤ, ltb_ℤ, String, Option, none, some, if◌then◌else◌}
use zookeeper_operator.Prelude.Dict.{get, entries}
use zookeeper_operator.Std.Strconv.{NumError, atoi}
use zookeeper_operator.Kube.Objects.{StatefulSet}
use zookeeper_operator.Api.Types.{ZookeeperCluster}

-- the results -1, 0 and 1
pub data Comparison : Type 0 where
  less equal greater : Comparison

-- where the StatefulSet's version is missing or no number, only the cluster's error counts
without_label : Option NumError → Comparison
without_label none = greater
without_label (some zk_err) = equal

-- where it is a number, the error of the cluster's version is not looked at
by_value : ℤ → ℤ → Comparison
by_value zk_version sts_version =
    if ltb_ℤ zk_version sts_version
    then less
    else if ltb_ℤ sts_version zk_version
    then greater
    else equal

by_label : ℤ × Option NumError → ℤ × Option NumError → Comparison
unfolding without_label by_value
by_label (zk_version, zk_err) (sts_version, none) = by_value zk_version sts_version
by_label (zk_version, zk_err) (sts_version, some e) = without_label zk_err

against : ℤ × Option NumError → Option String → Comparison
unfolding without_label by_label
against (zk_version, zk_err) none = without_label zk_err
against zk (some sts_version) = by_label zk (atoi sts_version)

pub compare_resource_version : ZookeeperCluster → StatefulSet → Comparison
unfolding against
compare_resource_version zk sts =
    against (atoi zk.meta.resource_version) (get "owner-rv" (entries sts.meta.labels))

-- ===== src/Controller/Version/Order.antt =====
-- compareResourceVersion on versions that are printed numbers.
use zookeeper_operator.Prelude.{ℕ, ◌≤◌, ◌<◌, pos, ltb, some, ◌≡◌, arith, if◌then◌else◌}
use zookeeper_operator.Prelude.Dict.{get, entries}
use zookeeper_operator.Std.Strconv.{itoa, atoi, max_int, syntax}
use zookeeper_operator.Std.Strconv.RoundTrip.{atoi-itoa}
use zookeeper_operator.Kube.Objects.{StatefulSet}
use zookeeper_operator.Api.Types.{ZookeeperCluster}
use zookeeper_operator.Controller.Version.{
  Comparison, less, equal, greater, compare_resource_version,
}

-- the three results, by the order of two numbers
abbrev pub order : ℕ → ℕ → Comparison
order m n = if ltb m n then less else if ltb n m then greater else equal

-- Where both versions are printed numbers that an int can hold, the result is their order.
pub compare_labelled :
    (zk : ZookeeperCluster) (sts : StatefulSet) (m n : ℕ)
    → zk.meta.resource_version ≡ itoa (pos m)
    → get "owner-rv" (entries sts.meta.labels) ≡ some (itoa (pos n))
    → m ≤ max_int
    → n ≤ max_int
    → compare_resource_version zk sts ≡ order m n
unfolding compare_resource_version
compare_labelled zk sts m n u v h k =
    rw (u, atoi-itoa (pos m) h (omega arith), v, atoi-itoa (pos n) k (omega arith)) (ground arith)

-- Where the cluster's version is no number, and the StatefulSet's is one above zero, the result is
-- that the cluster is older: the error of the cluster's version is not looked at.
pub compare_unreadable :
    (zk : ZookeeperCluster) (sts : StatefulSet) (n : ℕ)
    → atoi zk.meta.resource_version ≡ (pos 0, some syntax)
    → get "owner-rv" (entries sts.meta.labels) ≡ some (itoa (pos n))
    → 0 < n
    → n ≤ max_int
    → compare_resource_version zk sts ≡ less
unfolding compare_resource_version
compare_unreadable zk sts n u h lt k = rw (u, h, atoi-itoa (pos n) k (omega arith)) (ground arith)

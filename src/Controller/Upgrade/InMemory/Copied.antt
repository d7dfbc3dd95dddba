-- ===== src/Controller/Upgrade/InMemory/Copied.antt =====
-- clearUpgradeStatus on a cluster in memory does what it does on values.
use zookeeper_operator.Prelude.{ℕ, String, none, some, ◌≡◌, refl, sym, ◌∙◌, ap}
use zookeeper_operator.Api.Types.{ZookeeperCluster}
use zookeeper_operator.Api.Status.{ZookeeperClusterStatus, set_upgrading_condition_false}
use zookeeper_operator.Api.Status.Untouched.{bare_of-set_cluster_condition}
use zookeeper_operator.Api.Copies.Status.{
  ZookeeperClusterStatusMemory, status_form, deep_copy_status,
}
use zookeeper_operator.Api.Copies.Kept.{value-status_after}
use zookeeper_operator.Memory.{Pointer}
use zookeeper_operator.Memory.Fresh.{Spare}
use zookeeper_operator.Controller.Interfaces.{Result, ok, err, Reconciler}
use zookeeper_operator.Controller.Op.{State, continue, modify}
use zookeeper_operator.Controller.Upgrade.{cleared, clear_upgrade_status}
use zookeeper_operator.Controller.Upgrade.InMemory.{
  ClusterMemory, value_of, Overwritten, Update, clear_status, put_back, with_status,
  clear_in_memory,
}

-- the answer of Update, and the outcome of the whole, as a reader finds them
abbrev pub read_answer : {W : Type 0} → Result Overwritten × W → Result ZookeeperCluster × W
read_answer (ok o, w) = (ok (value_of o.instance), w)
read_answer (err e, w) = (err e, w)

abbrev pub read_outcome :
    {W : Type 0} → Result (Unit {0}) × (ClusterMemory × W) → Result (Unit {0}) × State W
read_outcome (answer, (m, w)) = (answer, record { instance = value_of m; world = w })

-- no write to the addresses from `lo` on, below `hi`
abbrev pub Spares : {W : Type 0} → ℕ → ℕ → Result Overwritten × W → Type 0
Spares lo hi (ok o, w) = Spare lo hi o.texts × Spare lo hi o.conditions
Spares lo hi (err e, w) = Unit

-- the rest of clearUpgradeStatus on values, from the cleared status on
abbrev after_answer :
    {W : Type 0}
    → ZookeeperCluster
    → ZookeeperClusterStatus
    → Result ZookeeperCluster × W
    → Result (Unit {0}) × State W
after_answer z status (ok stored, w) =
    (ok tt, record { instance = record stored { status = status }; world = w })
after_answer z status (err e, w) =
    (err e, record { instance = record z { status = status }; world = w })

answered :
    {W : Type 0} (z : ZookeeperCluster) (status : ZookeeperClusterStatus)
    (p : Result ZookeeperCluster × W)
    → continue p.0
        (λ stored. modify (λ _. record stored { status = status }))
        (record { instance = record z { status = status }; world = p.1 })
      ≡ after_answer z status p
answered z status (ok stored, w) = refl
answered z status (err e, w) = refl

module _ {W : Type 0} (r : Reconciler W) where
  clear_upgrade_status_lem :
      (s : State W)
      → let status = cleared r (r.clock.now s.world) s.instance.status in
        clear_upgrade_status r s
        ≡ after_answer s.instance status
            (r.client.clusters.update (record s.instance { status = status }) s.world)
  unfolding clear_upgrade_status
  clear_upgrade_status_lem s =
      let status = cleared r (r.clock.now s.world) s.instance.status in
      answered s.instance status
        (r.client.clusters.update (record s.instance { status = status }) s.world)

  clear_status-value :
      (now : String) (status : ZookeeperClusterStatusMemory) (n : ℕ)
      → status_form.value (clear_status now status n).0 ≡ cleared r now (status_form.value status)
  unfolding clear_status cleared set_upgrading_condition_false status_form
  clear_status-value now status n =
      let before = status_form.value status in
      let after = set_upgrading_condition_false now before in
      ap
        (λ (zs : ZookeeperClusterStatus). record zs {
          conditions = after.conditions;
          target_version = "";
        })
        (sym (bare_of-set_cluster_condition now _ before))

-- what stands where Update has been answered
put_back-reads :
    {W : Type 0} (z : ClusterMemory) (copy : Pointer ZookeeperClusterStatusMemory) (lo hi : ℕ)
    (p : Result Overwritten × W)
    → deep_copy_status (some z.status) lo ≡ (copy, hi)
    → Spares lo hi p
    → read_outcome (put_back z copy p)
      ≡ after_answer z.rest (status_form.value z.status.content) (read_answer p)
unfolding put_back deep_copy_status
put_back-reads z copy lo hi (err e, w) c spare = refl
put_back-reads z none lo hi (ok o, w) c spare = cc
put_back-reads z (some copy) lo hi (ok o, w) c (texts, conditions) =
    ap
      (λ status.
        (ok tt, record { instance = record o.instance.rest { status = status }; world = w }))
      (value-status_after o.texts o.conditions z.status copy lo hi c texts conditions)

module _ {W : Type 0} (r : Reconciler W) where
  -- Let the cluster of a run lie in memory, and `update` be the client's Update on it, which answers what
  -- Update answers on values, and may write over lists of texts and of conditions anywhere but at
  -- the addresses that the copy of the status gave out: clearUpgradeStatus, with its DeepCopy, then
  -- answers and leaves to a reader exactly what it does on values, whether Update is accepted or not.
  pub clear_in_memory-reads :
      (update : Update W) (s : State W) (m : ClusterMemory) (n : ℕ)
      → let (status, lo) = clear_status (r.clock.now s.world) m.status.content n in
        let z = with_status m status in
        value_of m ≡ s.instance
        → read_answer (update z s.world) ≡ r.client.clusters.update (value_of z) s.world
        → Spares lo (deep_copy_status (some z.status) lo).1 (update z s.world)
        → read_outcome (clear_in_memory update (r.clock.now s.world) m n s.world)
          ≡ clear_upgrade_status r s
  unfolding clear_in_memory
  clear_in_memory-reads update s m n read sent spare =
      let now = r.clock.now s.world in
      let (status, lo) = clear_status now m.status.content n in
      let z = with_status m status in
      let whole = λ (y : ZookeeperCluster).
        let left = cleared r now y.status in
        after_answer y left (r.client.clusters.update (record y { status = left }) s.world) in
      put_back-reads z _ lo _ (update z s.world) refl spare
      ∙ ap (after_answer m.rest (status_form.value status)) sent
      ∙ ap
          (λ (left : ZookeeperClusterStatus).
            after_answer m.rest left
              (r.client.clusters.update (record m.rest { status = left }) s.world))
          (clear_status-value r now m.status.content n)
      ∙ ap whole read
      ∙ sym (clear_upgrade_status_lem r s)

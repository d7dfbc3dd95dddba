-- ===== src/Controller/StatefulSets/Resize.antt =====
-- reconcileStatefulSet on a new number of replicas.
use zookeeper_operator.Prelude.{ℤ, eq_ℤ, ◌&◌, true, false, some, ◌≡◌}
use zookeeper_operator.Kube.Objects.{StatefulSet}
use zookeeper_operator.Utils.Zookeeper.{get_zk_service_uri, get_meta_path}
use zookeeper_operator.Controller.Interfaces.{Error, failure, describe, ok, err, Reconciler}
use zookeeper_operator.Controller.Op.{State}
use zookeeper_operator.Controller.StatefulSets.{
  update_and_upgrade, wrap, size_data, store_size, resize, apply_size,
}

module _ {W : Type 0} (r : Reconciler W) (s : State W) (found sts : StatefulSet) (old new : ℤ)
    (w : W) where
  -- Where the wanted number of replicas is the stored one, the StatefulSet is updated and the upgrade
  -- followed, and the ensemble is not asked.
  pub apply_size_same :
      found.spec.replicas ≡ some old
      → sts.spec.replicas ≡ some new
      → eq_ℤ new old ≡ true
      → apply_size r found sts s ≡ update_and_upgrade r found sts s
  unfolding apply_size
  apply_size_same f g same = rw (f, g, same)

  -- Where the wanted number of replicas differs from the stored one and the ensemble cannot be reached:
  -- the reconciliation fails with the wrapped error, and nothing but the attempt to connect is done,
  -- so that the StatefulSet keeps its size.
  pub apply_size_unreachable :
      (e : Error)
      → found.spec.replicas ≡ some old
      → sts.spec.replicas ≡ some new
      → eq_ℤ new old ≡ false
      → r.zk_client.connect (get_zk_service_uri s.instance) s.world ≡ (err e, w)
      → apply_size r found sts s
        ≡ (err (failure ("Error storing cluster size " & describe e)), record s { world = w })
  unfolding apply_size resize wrap
  apply_size_unreachable e f g differs h = rw (f, g, differs, h)

  -- Where it differs, the ensemble is reached and the metadata node answers its version: the new size
  -- is written at that version, then, whether the node took it or not, the StatefulSet is updated and
  -- the upgrade followed, and the connection is closed last, whatever these returned.
  pub apply_size_resized :
      (version : ℤ) (w' : W)
      → found.spec.replicas ≡ some old
      → sts.spec.replicas ≡ some new
      → eq_ℤ new old ≡ false
      → r.zk_client.connect (get_zk_service_uri s.instance) s.world ≡ (ok tt, w)
      → r.zk_client.node_exists (get_meta_path s.instance) w ≡ (ok version, w')
      → let w'' =
          (r.zk_client.update_node (get_meta_path s.instance) (size_data new) version w').1 in
        let (answer, t) = update_and_upgrade r found sts (record s { world = w'' }) in
        apply_size r found sts s ≡ (answer, record t { world = r.zk_client.close t.world })
  unfolding apply_size resize store_size wrap
  apply_size_resized version w' f g differs h k = rw (f, g, differs, h, k)

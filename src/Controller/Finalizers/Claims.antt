-- ===== src/Controller/Finalizers/Claims.antt =====
-- Which volume claims the finalizer's code deletes, and what it leaves when the cluster goes.
use zookeeper_operator.Prelude.{
  ℤ, pos, eq_ℤ, ltb_ℤ, true, false, List, [], ◌∷◌, ◌≡◌, refl, Bool-cases, inl, inr, if◌then◌else◌,
}
use zookeeper_operator.Kube.Pods.{PersistentVolumeClaim}
use zookeeper_operator.Utils.Finalizer.{zk_finalizer, contains_string, remove_string, is_pvc_orphan}
use zookeeper_operator.Controller.Interfaces.{Error, Result, ok, err, Reconciler}
use zookeeper_operator.Controller.Op.{State}
use zookeeper_operator.Controller.Finalizers.{
  length, keeps_volumes, is_zero_time, with_finalizers, delete_pvc, get_pvc_list, get_pvc_count,
  delete_orphans, delete_all, cleanup_orphan_pvcs, clean_up_all_pvcs, update_instance,
  release_cluster, reconcile_finalizers,
}

-- the claims of the members that a cluster of `replicas` members does not have
abbrev pub orphans : ℤ → List PersistentVolumeClaim → List PersistentVolumeClaim
orphans replicas [] = []
orphans replicas (item ∷ items) =
    if is_pvc_orphan item.meta.name replicas
    then item ∷ orphans replicas items
    else orphans replicas items

module _ {W : Type 0} (r : Reconciler W) where
  -- the world after one Delete for each claim, in order
  abbrev pub delete_each : List PersistentVolumeClaim → W → W
  delete_each [] w = w
  delete_each (item ∷ items) w =
      delete_each items (r.client.delete_pvc item.meta.namespace item.meta.name w).1

  -- the answer to the List of the cluster's claims
  abbrev pub listed : State W → Result (List PersistentVolumeClaim)
  listed s =
      r.client.list_pvcs s.instance.meta.namespace
        (("app", s.instance.meta.name) ∷ ("uid", s.instance.meta.uid) ∷ []) s.world

  delete_all_lem :
      (items : List PersistentVolumeClaim) (s : State W)
      → delete_all r items s ≡ (ok tt, record s { world = delete_each items s.world })
  unfolding delete_all delete_pvc
  delete_all_lem [] s = refl
  delete_all_lem (item ∷ items) s =
      delete_all_lem items
        (record s { world = (r.client.delete_pvc item.meta.namespace item.meta.name s.world).1 })

  delete_orphans_lem :
      (replicas : ℤ) (items : List PersistentVolumeClaim) (s : State W)
      → delete_orphans r replicas items s
        ≡ (ok tt, record s { world = delete_each (orphans replicas items) s.world })
  unfolding delete_orphans delete_pvc
  delete_orphans_lem replicas [] s = refl
  delete_orphans_lem replicas (item ∷ items) s =
      elim (Bool-cases (is_pvc_orphan item.meta.name replicas)) [
        | inl h ↦ rw h (
            delete_orphans_lem replicas items (record s {
              world = (r.client.delete_pvc item.meta.namespace item.meta.name s.world).1;
            }))
        | inr h ↦ rw h (delete_orphans_lem replicas items s)
      ]

-- Where the claims can be listed: cleanupOrphanPVCs succeeds, leaves the instance as it is, and
-- deletes exactly the orphans among the listed claims, in their order, when all of the members are
-- ready and there are more claims than replicas; otherwise it deletes nothing.
pub cleanup_orphan_pvcs_lem :
    {W : Type 0} (r : Reconciler W) (s : State W) (items : List PersistentVolumeClaim)
    → listed r s ≡ ok items
    → let replicas = s.instance.spec.replicas in
      cleanup_orphan_pvcs r s ≡ (
        if eq_ℤ s.instance.status.ready_replicas replicas
        then (if ltb_ℤ replicas (pos (length items))
            then (ok tt, record s { world = delete_each r (orphans replicas items) s.world })
            else (ok tt, s))
        else (ok tt, s))
unfolding cleanup_orphan_pvcs get_pvc_count get_pvc_list
cleanup_orphan_pvcs_lem r s items h =
    elim (Bool-cases (eq_ℤ s.instance.status.ready_replicas s.instance.spec.replicas)) [
      | inl e ↦
          rw (e, h)
            (elim (Bool-cases (ltb_ℤ s.instance.spec.replicas (pos (length items)))) [
              | inl l ↦ rw (l, h) (delete_orphans_lem r s.instance.spec.replicas items s)
              | inr l ↦ rw l
            ])
      | inr e ↦ rw e
    ]

-- For a cluster that is being deleted, which keeps no volumes (no persistence, or the reclaim
-- policy Delete), carries the finalizer, and whose claims can be listed: every listed claim is
-- deleted once, in order, and then, whatever the deletions answered, one Update sends the cluster
-- without the finalizer.
pub reconcile_finalizers_release :
    {W : Type 0} (r : Reconciler W) (s : State W) (items : List PersistentVolumeClaim)
    → keeps_volumes s.instance.spec.persistence ≡ false
    → is_zero_time s.instance.meta.deletion_timestamp ≡ false
    → contains_string s.instance.meta.finalizers zk_finalizer ≡ true
    → listed r s ≡ ok items
    → reconcile_finalizers r s
      ≡ update_instance r (record {
        instance =
            with_finalizers (remove_string s.instance.meta.finalizers zk_finalizer) s.instance;
        world = delete_each r items s.world;
      })
unfolding reconcile_finalizers release_cluster clean_up_all_pvcs get_pvc_list
reconcile_finalizers_release r s items keeps alive found h =
    rw (keeps, alive, found, h, delete_all_lem r items s)

-- For a cluster that is being deleted, which keeps no volumes, carries the finalizer, and whose
-- claims cannot be listed: reconcileFinalizers fails with that error, and nothing is changed, so
-- the finalizer stays.
pub reconcile_finalizers_unlisted :
    {W : Type 0} (r : Reconciler W) (s : State W) (e : Error)
    → keeps_volumes s.instance.spec.persistence ≡ false
    → is_zero_time s.instance.meta.deletion_timestamp ≡ false
    → contains_string s.instance.meta.finalizers zk_finalizer ≡ true
    → listed r s ≡ err e
    → reconcile_finalizers r s ≡ (err e, s)
unfolding reconcile_finalizers release_cluster clean_up_all_pvcs get_pvc_list
reconcile_finalizers_unlisted r s e keeps alive found h = rw (keeps, alive, found, h)

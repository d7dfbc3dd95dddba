-- ===== src/Controller/StatefulSets/Whole/Applied.antt =====
-- What the API server holds after a run of reconcileStatefulSet.
use zookeeper_operator.Prelude.{ℤ, eq_ℤ, String, Option, none, some, ◌≡◌, refl, sym, ap, ◌∙◌, ◌&◌}
use zookeeper_operator.Prelude.Dict.{Dict, put}
use zookeeper_operator.Kube.Objects.{StatefulSet}
use zookeeper_operator.Kube.Pods.{PodTemplate}
use zookeeper_operator.Api.Types.{ZookeeperCluster}
use zookeeper_operator.Utils.Zookeeper.{get_zk_service_uri, get_meta_path}
use zookeeper_operator.Zk.Sync.{sync_stateful_set}
use zookeeper_operator.Controller.Interfaces.{
  not_found, failure, panic, Result, ok, err, Resource, Reconciler,
}
use zookeeper_operator.Controller.Interfaces.Guarded.{
  SparesClusters, SparesEnsemble, Anything, Anything-IsClosed,
}
use zookeeper_operator.Controller.Op.{State, gets, call, pure, deref, ignoring, modify}
use zookeeper_operator.Controller.Op.Brings.{
  Brings, Yields, Brings-raise, Brings-if, Brings-call, Brings-deferring, Brings-bind, Brings-then,
  Yields-any, Yields-raise, Yields-pure,
}
use zookeeper_operator.Controller.Upgrade.{upgrade_stateful_set}
use zookeeper_operator.Controller.Upgrade.Keeps.{upgrade_stateful_set-Keeps}
use zookeeper_operator.Controller.Version.{
  Comparison, less, equal, greater, compare_resource_version,
}
use zookeeper_operator.Controller.StatefulSets.{
  update_stateful_set, update_and_upgrade, call_wrapped, size_data, store_size, resize, apply_size,
}
use zookeeper_operator.Controller.StatefulSets.Whole.{
  with_labels, note_version, gate, create_stateful_set, store_stateful_set,
}

-- the part of a StatefulSet that an update brings to the wanted one: replicas, pod template, strategy
abbrev pub Rollout : Type 0
Rollout = Option ℤ × PodTemplate × String

abbrev pub rolled : StatefulSet → Rollout
rolled sts = (sts.spec.replicas, sts.spec.template, sts.spec.update_strategy)

-- `held ns n w` is the StatefulSet that the API server holds under a namespace and a name, and `admit`
-- what the server's defaulting makes of the part that is sent to it.
module _ {W : Type 0} (held : String → String → W → Option StatefulSet)
    (admit : Rollout → Rollout) where
  abbrev pub HeldAs : StatefulSet → W → Type 0
  HeldAs sts w =
      (b : StatefulSet) × (held sts.meta.namespace sts.meta.name w ≡ some b)
      × (rolled b ≡ admit (rolled sts))

  -- A Get answers with a StatefulSet of the key it is asked for, and an accepted write is stored, with
  -- its defaults filled in.
  pub record StoresSets (sets : Resource W StatefulSet) : Type 0 where
    pub finds_namespace :
        (ns n : String) (w : W) (a : StatefulSet) → sets.get ns n w ≡ ok a → a.meta.namespace ≡ ns
    pub finds_name :
        (ns n : String) (w : W) (a : StatefulSet) → sets.get ns n w ≡ ok a → a.meta.name ≡ n
    pub creates : (a b : StatefulSet) (w v : W) → sets.create a w ≡ (ok b, v) → HeldAs a v
    pub updates : (a b : StatefulSet) (w v : W) → sets.update a w ≡ (ok b, v) → HeldAs a v

  HeldAs-same :
      (a b : StatefulSet) (w : W)
      → b.meta.namespace ≡ a.meta.namespace
      → b.meta.name ≡ a.meta.name
      → rolled b ≡ rolled a
      → HeldAs b w
      → HeldAs a w
  HeldAs-same a b w ns n p (c, h, q) = (
    c,
    ap (λ (x : String). held x a.meta.name w) (sym ns)
        ∙ ap (λ (x : String). held b.meta.namespace x w) (sym n)
        ∙ h,
    q ∙ ap admit p,
  )

abbrev pub HasKey : StatefulSet → StatefulSet → Type 0
HasKey sts found = (found.meta.namespace ≡ sts.meta.namespace) × (found.meta.name ≡ sts.meta.name)

abbrev pub Found : StatefulSet → Result StatefulSet → Type 0
Found sts (err e) = Unit
Found sts (ok found) = HasKey sts found

module _ {W : Type 0} (r : Reconciler W) (held : String → String → W → Option StatefulSet)
    (admit : Rollout → Rollout) (server : StoresSets held admit r.client.stateful_sets)
    (clusters : (ns n : String) (b : StatefulSet)
      → SparesClusters r Anything (λ w. held ns n w ≡ some b))
    (ensemble : (ns n : String) (b : StatefulSet)
      → SparesEnsemble r.zk_client (λ w. held ns n w ≡ some b)) where
  abbrev pub IsRolled : StatefulSet → W → Type 0
  IsRolled = HeldAs held admit

  module _ (sts : StatefulSet) where
    close-IsRolled : (w : W) → IsRolled sts w → IsRolled sts (r.zk_client.close w)
    close-IsRolled w (b, h, e) = (b, (ensemble sts.meta.namespace sts.meta.name b).closes w h, e)

    upgrade-IsRolled :
        (stored : StatefulSet) (t : State W)
        → IsRolled sts t.world
        → IsRolled sts (upgrade_stateful_set r stored t).1.world
    upgrade-IsRolled stored t (b, h, e) =
        let spared = clusters sts.meta.namespace sts.meta.name b in
        (b, ((upgrade_stateful_set-Keeps r Anything-IsClosed spared stored).at t (tt, h)).1, e)

    update_stateful_set-Brings :
        (found : StatefulSet)
        → HasKey sts found
        → Brings (IsRolled sts) (update_stateful_set r found sts)
    unfolding update_stateful_set sync_stateful_set
    update_stateful_set-Brings found (ns, n) =
        Brings-then (call (r.client.stateful_sets.update (sync_stateful_set found sts))) _
          (Brings-call _ (λ w v a e.
            HeldAs-same held admit sts (sync_stateful_set found sts) v ns n refl
              (server.updates (sync_stateful_set found sts) a w v e)))
          (λ a t h. h)

    update_and_upgrade-Brings :
        (found : StatefulSet)
        → HasKey sts found
        → Brings (IsRolled sts) (update_and_upgrade r found sts)
    unfolding update_and_upgrade
    update_and_upgrade-Brings found key =
        Brings-then (update_stateful_set r found sts) _ (update_stateful_set-Brings found key)
          upgrade-IsRolled

    store_size-Brings :
        (found : StatefulSet) (size : ℤ)
        → HasKey sts found
        → Brings (IsRolled sts) (store_size r found sts size)
    unfolding store_size
    store_size-Brings found size key =
        Brings-bind (λ a. Unit) (gets (λ s. get_meta_path s.instance)) _ (Yields-any _)
          (λ path u.
            Brings-bind (λ a. Unit)
              (call_wrapped r (λ t. "Error doing exists check for znode " & path & ": " & t)
                (r.zk_client.node_exists path))
              _ (Yields-any _)
              (λ version v.
                Brings-bind (λ a. Unit)
                  (ignoring (r.zk_client.update_node path (size_data size) version)) _
                  (Yields-any _) (λ a x. update_and_upgrade-Brings found key)))

    resize-Brings :
        (found : StatefulSet) (size : ℤ)
        → HasKey sts found
        → Brings (IsRolled sts) (resize r found sts size)
    unfolding resize
    resize-Brings found size key =
        Brings-bind (λ a. Unit) (gets (λ s. get_zk_service_uri s.instance)) _ (Yields-any _)
          (λ uri u.
            Brings-bind (λ a. Unit)
              (call_wrapped r (λ t. "Error storing cluster size " & t) (r.zk_client.connect uri)) _
              (Yields-any _)
              (λ a v. Brings-deferring _ _ close-IsRolled (store_size-Brings found size key)))

    apply_size-Brings :
        (found : StatefulSet) → HasKey sts found → Brings (IsRolled sts) (apply_size r found sts)
    unfolding apply_size
    apply_size-Brings found key =
        Brings-bind (λ a. Unit) (deref found.spec.replicas) _ (Yields-any _)
          (λ old u.
            Brings-bind (λ a. Unit) (deref sts.spec.replicas) _ (Yields-any _)
              (λ new v.
                Brings-if (eq_ℤ new old) _ _ (update_and_upgrade-Brings found key)
                  (resize-Brings found new key)))

    note_version-Yields :
        (version : String) (found : StatefulSet) (labels : Option Dict)
        → HasKey sts found
        → Yields (HasKey sts) (note_version r version found labels)
    unfolding note_version
    note_version-Yields version found none key = Yields-raise panic
    note_version-Yields version found (some m) key = Yields-pure _ key

    gate-Yields :
        (c : Comparison) (z : ZookeeperCluster) (found : StatefulSet)
        → HasKey sts found
        → Yields (HasKey sts) (gate r c z found)
    unfolding gate
    gate-Yields less z found key = Yields-raise _
    gate-Yields equal z found key = Yields-pure found key
    gate-Yields greater z found key =
        note_version-Yields z.meta.resource_version found found.meta.labels key

    create_stateful_set-Brings :
        (labels : Option Dict) → Brings (IsRolled sts) (create_stateful_set r sts labels)
    unfolding create_stateful_set
    create_stateful_set-Brings none = Brings-raise panic
    create_stateful_set-Brings (some m) =
        Brings-bind (λ a. Unit) (gets (λ s. s.instance.meta.resource_version)) _ (Yields-any _)
          (λ version u.
            let labelled = with_labels sts (put "owner-rv" version m) in
            Brings-bind (λ a. Unit)
              (modify (λ z. record z {
                spec = record z.spec { labels = some (put "owner-rv" version m) };
              }))
              _ (Yields-any _)
              (λ a v.
                Brings-then (call (r.client.stateful_sets.create labelled)) (λ b. pure tt)
                  (Brings-call _ (λ w x b e.
                    HeldAs-same held admit sts labelled x refl refl refl
                      (server.creates labelled b w x e)))
                  (λ b t h. h)))

    pub store_stateful_set-Brings :
        (found : Result StatefulSet)
        → Found sts found
        → Brings (IsRolled sts) (store_stateful_set r sts found)
    unfolding store_stateful_set
    store_stateful_set-Brings (err (not_found t)) key = create_stateful_set-Brings sts.meta.labels
    store_stateful_set-Brings (err (failure t)) key = Brings-raise _
    store_stateful_set-Brings (err panic) key = Brings-raise _
    store_stateful_set-Brings (ok found) key =
        Brings-bind (λ a. Unit) (gets (λ s. s.instance)) _ (Yields-any _)
          (λ z u.
            Brings-bind (HasKey sts) (gate r (compare_resource_version z found) z found) _
              (gate-Yields (compare_resource_version z found) z found key) apply_size-Brings)

    pub found_lem :
        (w : W) (p : Result StatefulSet)
        → r.client.stateful_sets.get sts.meta.namespace sts.meta.name w ≡ p
        → Found sts p
    found_lem w (err e) h = tt
    found_lem w (ok found) h = (
      server.finds_namespace sts.meta.namespace sts.meta.name w found h,
      server.finds_name sts.meta.namespace sts.meta.name w found h,
    )

-- ===== src/Scenarios/Claims.antt =====
-- Runs of the finalizer's code.
use zookeeper_operator.Prelude.{ℕ, pos, ◌&◌, true, some, [], ◌∷◌, ◌≡◌, refl, arith}
use zookeeper_operator.Std.Strconv.{itoa}
use zookeeper_operator.Utils.Finalizer.{contains_string, remove_string, is_pvc_orphan}
use zookeeper_operator.Utils.Finalizer.Orphans.{orphan_exact}
use zookeeper_operator.Controller.Interfaces.{not_found, failure, ok, err, Reconciler}
use zookeeper_operator.Controller.Op.{State}
use zookeeper_operator.Controller.Finalizers.{
  cleanup_orphan_pvcs, update_instance, with_finalizers, keeps_volumes, is_zero_time,
  reconcile_finalizers,
}
use zookeeper_operator.Controller.Finalizers.Claims.{reconcile_finalizers_release}
use zookeeper_operator.Controller.Finalizers.Members.{
  Members, NamedBelow, cleanup_orphan_pvcs_members,
}
use zookeeper_operator.Scenarios.Data.{cluster, claim, claims, client, ensemble, reconciler}

orphan_exact_example : is_pvc_orphan ("data-zk" & "-" & itoa (pos 3)) (pos 3) ≡ true
orphan_exact_example = orphan_exact "data-zk" 3 (pos 3) (omega arith)

-- a server with the four claims, and one that cannot list them
abbrev server : Reconciler ℕ
server =
    reconciler (client (ok cluster) (err (not_found "")) (err (not_found "")) (ok claims))
      (ensemble true)

abbrev mute : Reconciler ℕ
mute =
    reconciler
      (client (ok cluster) (err (not_found "")) (err (not_found "")) (err (failure "down")))
      (ensemble true)

abbrev ready : State ℕ
ready = record { instance = cluster; world = 0 }

-- the four claims with the ordinals in their names
abbrev four : Members
four =
    (0, claim "data-zk-0")
    ∷ (1, claim "data-zk-1")
    ∷ (2, claim "data-zk-2")
    ∷ (3, claim "data-zk-3")
    ∷ []

four-NamedBelow : NamedBelow "data-zk" 4 four
unfolding itoa
four-NamedBelow =
    (refl, omega arith, (refl, omega arith, (refl, omega arith, (refl, omega arith, tt))))

-- of the four claims the last one is deleted
cleanup_orphan_pvcs_members_example :
    cleanup_orphan_pvcs server ready ≡ (ok tt, record ready { world = 1 })
cleanup_orphan_pvcs_members_example =
    cleanup_orphan_pvcs_members server ready "data-zk" 3 four refl refl (omega arith)
      four-NamedBelow

abbrev leaving : State ℕ
leaving = record {
  instance = record cluster {
    meta = record cluster.meta {
      deletion_timestamp = some "now";
      finalizers = "cleanUpZookeeperPVC" ∷ "other" ∷ [];
    };
  };
  world = 0;
}

reconcile_finalizers_release_example :
    reconcile_finalizers server leaving
    ≡ update_instance server
        (record { instance = with_finalizers ("other" ∷ []) leaving.instance; world = 4 })
unfolding remove_string contains_string keeps_volumes is_zero_time
reconcile_finalizers_release_example =
    reconcile_finalizers_release server leaving claims refl refl refl refl

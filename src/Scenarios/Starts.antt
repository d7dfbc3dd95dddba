-- ===== src/Scenarios/Starts.antt =====
-- Starts of the operator. The world counts the steps that changed it.
use zookeeper_operator.Prelude.{ℕ, suc, false, none, some, [], ◌∷◌, ◌≡◌, refl, arith, eq_iff}
use zookeeper_operator.Controller.Interfaces.{ok}
use zookeeper_operator.Utils.Leader.{become_leader, precheck_leader_lock}
use zookeeper_operator.Operator.Namespaces.{manager_namespaces, get_operator_namespace}
use zookeeper_operator.Operator.Namespaces.Joined.{manager_namespaces-joined}
use zookeeper_operator.Operator.Start.{
  Platform, Flags, or_exit, once_answered, setup_with_manager, main,
}
use zookeeper_operator.Operator.Start.Leading.{Served, main-Served}
use zookeeper_operator.Std.Strings.{is_space, trim_space}
use zookeeper_operator.Std.Strings.Split.{split}
use zookeeper_operator.Std.Strings.Trim.{is_blank, has_space}
use zookeeper_operator.Scenarios.Locks.{client}

-- An empty part watches every namespace.
namespaces_some :
    (manager_namespaces "" ≡ [])
    × (manager_namespaces "a, b" ≡ "a" ∷ "b" ∷ [])
    × (manager_namespaces "a,,b" ≡ "a" ∷ "" ∷ "b" ∷ [])
    × (manager_namespaces " " ≡ "" ∷ [])
unfolding manager_namespaces split trim_space
namespaces_some = (refl, refl, refl, refl)

manager_namespaces-joined_example : manager_namespaces "a, b" ≡ "a" ∷ "b" ∷ []
unfolding is_blank has_space is_space
manager_namespaces-joined_example =
    manager_namespaces-joined
      (record { before = ""; name = "a"; after = "" }
        ∷ record { before = " "; name = "b"; after = "" }
        ∷ [])
      (
        record { blank_before = refl; is_word = refl; has_no_comma = refl; blank_after = refl },
        (
          record { blank_before = refl; is_word = refl; has_no_comma = refl; blank_after = refl },
          tt,
        ),
      )
      (λ e. ground (arith, (eq_iff "a, b" "").1 e))

abbrev platform : Platform ℕ
platform = record {
  watch_namespace = some "a";
  pod_name = "me";
  lock_client = client;
  get_config = λ w. (ok tt, w);
  read_file = λ p w. ok "ops";
  new_manager = λ ns addr w. (ok tt, suc w);
  complete = λ registration w. (ok tt, suc w);
  start = λ w. (ok tt, suc w);
}

abbrev flags : Flags
flags = record { version = false; metrics_bind_address = "127.0.0.1:6000" }

-- a pod that waits behind a leader that lives on
abbrev outsider : Platform ℕ
outsider = record platform { lock_client = record client { become = λ name w. (none, w) } }

main-Served_example : Served platform (main platform flags 5).1
unfolding become_leader precheck_leader_lock main or_exit once_answered get_operator_namespace
    setup_with_manager
main-Served_example = main-Served platform flags 5 refl refl

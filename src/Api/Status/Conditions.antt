-- ===== src/Api/Status/Conditions.antt =====
-- What setClusterCondition and Init do to the list of conditions.
use zookeeper_operator.Prelude.{
  ℕ, zero, suc, String, str_eq, eq_iff, Option, none, some, List, [], ◌∷◌, ◌++◌, if◌then◌else◌, ◌≡◌,
  refl, ap, ◌∙◌, arith, ◌&&◌,
}
use zookeeper_operator.Prelude.Dict.{is_some}
use zookeeper_operator.Api.Status.{
  ClusterCondition, second, ZookeeperClusterStatus, condition, find_condition,
  get_cluster_condition, merge_condition, set_at, store_condition, set_cluster_condition,
}

-- An existing condition brought up to date: status, reason and message are the new ones; the transition
-- time is the present exactly if the status differed; the update time is the present if any of the
-- three differed.
abbrev pub brought_up_to_date : String → ClusterCondition → ClusterCondition → ClusterCondition
brought_up_to_date now new old = record old {
  status = new.status;
  reason = new.reason;
  message = new.message;
  last_transition_time = if str_eq old.status new.status then old.last_transition_time else now;
  last_update_time =
      if str_eq old.status new.status
        && (str_eq old.reason new.reason && str_eq old.message new.message)
      then old.last_update_time
      else now;
}

-- what stands for the type of `new` after the call
abbrev pub stored : String → ClusterCondition → Option ClusterCondition → ClusterCondition
stored now new none = new
stored now new (some old) = brought_up_to_date now new old

merge-type :
    (now : String) (new old : ClusterCondition) → (merge_condition now new old).type ≡ old.type
unfolding merge_condition
merge-type now new old = ground arith

find-type :
    (cs : List ClusterCondition) (t : String) (i : ℕ) (c : ClusterCondition)
    → find_condition cs t ≡ some (i, c)
    → c.type ≡ t
unfolding find_condition
find-type [] t i c h = cc
find-type (x ∷ cs) t zero c h = ground (arith, eq_iff t x.type)
find-type (x ∷ cs) t (suc i) c h = ground (arith, eq_iff t x.type, find-type cs t i c)

find-append :
    (cs : List ClusterCondition) (new : ClusterCondition) (t : String)
    → find_condition cs new.type ≡ none
    → second (find_condition (cs ++ new ∷ []) t)
      ≡ (if str_eq t new.type then some new else second (find_condition cs t))
unfolding find_condition
find-append [] new t h = ground arith
find-append (x ∷ cs) new t h =
    ground (arith, eq_iff t x.type, eq_iff t new.type, eq_iff new.type x.type, find-append cs new t)

find-set_at :
    (cs : List ClusterCondition) (new : ClusterCondition) (u t : String) (i : ℕ)
    (old : ClusterCondition)
    → find_condition cs u ≡ some (i, old)
    → new.type ≡ u
    → second (find_condition (set_at cs i new) t)
      ≡ (if str_eq t u then some new else second (find_condition cs t))
unfolding find_condition set_at
find-set_at [] new u t i old h e = cc
find-set_at (x ∷ cs) new u t zero old h e =
    ground (arith, eq_iff t x.type, eq_iff u x.type, eq_iff t u, eq_iff t new.type)
find-set_at (x ∷ cs) new u t (suc i) old h e =
    ground (arith, eq_iff t x.type, eq_iff u x.type, eq_iff t u, find-set_at cs new u t i old)

-- What setClusterCondition makes of an existing condition of the type: status, reason and message are
-- the new ones; the transition time is the present exactly if the status differed, and is kept
-- otherwise; the update time is the present if any of the three differed, and is kept otherwise.
pub merge_condition_lem :
    (now : String) (new old : ClusterCondition)
    → let c = merge_condition now new old in
      (c.type ≡ old.type)
      × (c.status ≡ new.status)
      × (c.reason ≡ new.reason)
      × (c.message ≡ new.message)
      × (c.last_transition_time
          ≡ (if str_eq old.status new.status then old.last_transition_time else now))
      × (c.last_update_time ≡ (
          if str_eq old.status new.status
            && (str_eq old.reason new.reason && str_eq old.message new.message)
          then old.last_update_time
          else now))
unfolding merge_condition
merge_condition_lem now new old = ground (
  arith,
  eq_iff old.status new.status,
  eq_iff old.reason new.reason,
  eq_iff old.message new.message,
)

same :
    (c d : ClusterCondition)
    → c.type ≡ d.type
    → c.status ≡ d.status
    → c.reason ≡ d.reason
    → c.message ≡ d.message
    → c.last_update_time ≡ d.last_update_time
    → c.last_transition_time ≡ d.last_transition_time
    → c ≡ d
same c d t s r m u v = cc

merge-brought_up_to_date :
    (now : String) (new old : ClusterCondition)
    → merge_condition now new old ≡ brought_up_to_date now new old
merge-brought_up_to_date now new old =
    let (type, status, reason, message, transition, update) = merge_condition_lem now new old in
    same (merge_condition now new old) (brought_up_to_date now new old) type status reason message
      update transition

store_at :
    (now : String) (new : ClusterCondition) (cs : List ClusterCondition) (t : String)
    (o : Option (ℕ × ClusterCondition))
    → find_condition cs new.type ≡ o
    → second (find_condition (store_condition now new cs o) t) ≡ (
        if str_eq t new.type
        then some (stored now new (second o))
        else second (find_condition cs t))
unfolding store_condition
store_at now new cs t none h = find-append cs new t h
store_at now new cs t (some (i, old)) h =
    find-set_at cs (merge_condition now new old) new.type t i old h
      (merge-type now new old ∙ find-type cs new.type i old h)
    ∙ ap (λ c. if str_eq t new.type then some c else second (find_condition cs t))
        (merge-brought_up_to_date now new old)

-- After setClusterCondition the condition of the new one's type is the new one itself, if there was
-- none of that type. Otherwise it is the old one with the new status, reason and message, with the
-- present as its transition time if the status differed, and with the present as its update time if
-- one of the three differed, and these times are kept otherwise. The conditions of all other types are
-- as before.
pub condition-set_cluster_condition :
    (now : String) (new : ClusterCondition) (zs : ZookeeperClusterStatus) (t : String)
    → condition (set_cluster_condition now new zs) t ≡ (
        if str_eq t new.type then some (stored now new (condition zs new.type)) else condition zs t)
unfolding set_cluster_condition get_cluster_condition
condition-set_cluster_condition now new zs t =
    store_at now new zs.conditions t (find_condition zs.conditions new.type) refl

abbrev pub types : List ClusterCondition → List String
types [] = []
types (c ∷ cs) = c.type ∷ types cs

types-append :
    (cs : List ClusterCondition) (c : ClusterCondition)
    → types (cs ++ c ∷ []) ≡ types cs ++ c.type ∷ []
types-append [] c = refl
types-append (x ∷ cs) c = ap (◌∷◌ x.type) (types-append cs c)

types-set_at :
    (cs : List ClusterCondition) (u : String) (i : ℕ) (old c : ClusterCondition)
    → find_condition cs u ≡ some (i, old)
    → c.type ≡ old.type
    → types (set_at cs i c) ≡ types cs
unfolding find_condition set_at
types-set_at [] u i old c h e = refl
types-set_at (x ∷ cs) u zero old c h e = ground (arith, eq_iff u x.type)
types-set_at (x ∷ cs) u (suc i) old c h e =
    ground (arith, eq_iff u x.type, types-set_at cs u i old c)

types-store_condition :
    (now : String) (new : ClusterCondition) (cs : List ClusterCondition)
    (o : Option (ℕ × ClusterCondition))
    → find_condition cs new.type ≡ o
    → types (store_condition now new cs o)
      ≡ (if is_some (second o) then types cs else types cs ++ new.type ∷ [])
unfolding store_condition
types-store_condition now new cs none h = types-append cs new
types-store_condition now new cs (some (i, old)) h =
    types-set_at cs new.type i old (merge_condition now new old) h (merge-type now new old)

-- setClusterCondition keeps the order of the conditions' types, and adds the new one's at the end
-- exactly if there was none of it.
pub types-set_cluster_condition :
    (now : String) (new : ClusterCondition) (zs : ZookeeperClusterStatus)
    → types (set_cluster_condition now new zs).conditions ≡ (
        if is_some (condition zs new.type)
        then types zs.conditions
        else types zs.conditions ++ new.type ∷ [])
unfolding set_cluster_condition get_cluster_condition
types-set_cluster_condition now new zs =
    types-store_condition now new zs.conditions (find_condition zs.conditions new.type) refl

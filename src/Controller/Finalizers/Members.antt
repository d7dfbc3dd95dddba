-- ===== src/Controller/Finalizers/Members.antt =====
-- Which members' volume claims the clean-up of orphan claims deletes: the claims carry the names
-- that the StatefulSet controller gives them, `<template>-<set>-<ordinal>`.
use zookeeper_operator.Prelude.{
  ℕ, pos, ltb, leb, eq_ℤ, leb_ℤ, ltb_ℤ, ◌≤◌, ◌<◌, String, ◌&◌, List, [], ◌∷◌, ◌≡◌, refl, ◌∙◌, ap,
  arith, Bool-cases, inl, inr, if◌then◌else◌, ◌^◌,
}
use zookeeper_operator.Std.Strconv.{itoa}
use zookeeper_operator.Kube.Pods.{PersistentVolumeClaim}
use zookeeper_operator.Utils.Finalizer.{is_pvc_orphan}
use zookeeper_operator.Utils.Finalizer.Orphans.{orphan_exact}
use zookeeper_operator.Controller.Interfaces.{ok, Reconciler}
use zookeeper_operator.Controller.Op.{State}
use zookeeper_operator.Controller.Finalizers.{length, cleanup_orphan_pvcs}
use zookeeper_operator.Controller.Finalizers.Claims.{
  orphans, delete_each, listed, cleanup_orphan_pvcs_lem,
}

-- the claims of members, each with its ordinal, in any order
abbrev pub Members : Type 0
Members = List (ℕ × PersistentVolumeClaim)

abbrev pub claims_of : Members → List PersistentVolumeClaim
claims_of [] = []
claims_of ((ordinal, item) ∷ members) = item ∷ claims_of members

-- every claim is named by its ordinal, which is below `bound`
abbrev pub NamedBelow : String → ℕ → Members → Type 0
NamedBelow prefix bound [] = Unit
NamedBelow prefix bound ((ordinal, item) ∷ members) =
    (item.meta.name ≡ prefix & "-" & itoa (pos ordinal))
    × (ordinal < bound)
    × NamedBelow prefix bound members

-- the claims of the members that a cluster of `replicas` members no longer has
abbrev pub retired : ℕ → Members → List PersistentVolumeClaim
retired replicas [] = []
retired replicas ((ordinal, item) ∷ members) =
    if leb replicas ordinal then item ∷ retired replicas members else retired replicas members

leb_pos : (m n : ℕ) → leb_ℤ (pos m) (pos n) ≡ leb m n
leb_pos m n = ground arith

ltb_pos : (m n : ℕ) → ltb_ℤ (pos m) (pos n) ≡ ltb m n
ltb_pos m n = ground arith

orphans-retired :
    (prefix : String) (bound replicas : ℕ) (members : Members)
    → bound ≤ 2 ^ 31
    → NamedBelow prefix bound members
    → orphans (pos replicas) (claims_of members) ≡ retired replicas members
orphans-retired prefix bound replicas [] h hs = refl
orphans-retired prefix bound replicas ((ordinal, item) ∷ members) h (named, below, hs) =
    ap
      (λ b.
        if b
        then item ∷ orphans (pos replicas) (claims_of members)
        else orphans (pos replicas) (claims_of members))
      (ap (λ t. is_pvc_orphan t (pos replicas)) named
        ∙ orphan_exact prefix ordinal (pos replicas) (omega arith)
        ∙ leb_pos replicas ordinal)
    ∙ ap (λ xs. if leb replicas ordinal then item ∷ xs else xs)
        (orphans-retired prefix bound replicas members h hs)

-- A cluster that has a member for every ordinal has retired none.
retired_none :
    (prefix : String) (bound replicas : ℕ) (members : Members)
    → bound ≤ replicas
    → NamedBelow prefix bound members
    → retired replicas members ≡ []
retired_none prefix bound replicas [] h hs = refl
retired_none prefix bound replicas ((ordinal, item) ∷ members) h (named, below, hs) =
    rw (retired_none prefix bound replicas members h hs) (ground arith)

-- Where the listed claims are those of members whose ordinals are below the number of the claims,
-- in any order, each named `<prefix>-<ordinal>`, and there are at most 2^31 of them:
-- cleanupOrphanPVCs succeeds, leaves the instance as it is, and deletes, once all of the wanted
-- members are ready, exactly the claims whose ordinal is at or above the wanted number of members,
-- in the order of the list. The claim of a wanted member is never deleted.
pub cleanup_orphan_pvcs_members :
    {W : Type 0} (r : Reconciler W) (s : State W) (prefix : String) (replicas : ℕ)
    (members : Members)
    → s.instance.spec.replicas ≡ pos replicas
    → listed r s ≡ ok (claims_of members)
    → length (claims_of members) ≤ 2 ^ 31
    → NamedBelow prefix (length (claims_of members)) members
    → cleanup_orphan_pvcs r s ≡ (
      ok tt,
      if eq_ℤ s.instance.status.ready_replicas (pos replicas)
          then record s { world = delete_each r (retired replicas members) s.world }
          else s,
    )
cleanup_orphan_pvcs_members r s prefix replicas members wanted h small named =
    let bound = length (claims_of members) in
    cleanup_orphan_pvcs_lem r s (claims_of members) h
    ∙ rw (wanted, ltb_pos replicas bound)
        (elim (Bool-cases (eq_ℤ s.instance.status.ready_replicas (pos replicas))) [
          | inl e ↦ rw e (elim (Bool-cases (ltb replicas bound)) [
            | inl more ↦ rw (more, orphans-retired prefix bound replicas members small named)
            | inr few ↦ rw (few, retired_none prefix bound replicas members (ground arith) named)
          ])
          | inr e ↦ rw e
        ])

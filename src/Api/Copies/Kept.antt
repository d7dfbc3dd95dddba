-- ===== src/Api/Copies/Kept.antt =====
-- What later writes do to a copy of the status.
use zookeeper_operator.Prelude.{ℕ, suc, String, List, ◌≡◌, ap, sym, ◌∙◌, arith, some}
use zookeeper_operator.Api.Status.{ClusterCondition}
use zookeeper_operator.Memory.{Ref, Writes, after, copy_cells}
use zookeeper_operator.Memory.Fresh.{
  Run-bounds, Spare, Spare-left, Spare-right, after-copy_cells, cells-IsDeep,
}
use zookeeper_operator.Api.Copies.Deep.{deep_copy_into_members-IsDeep, deep_copy_into_status-IsDeep}
use zookeeper_operator.Api.Copies.Status.{
  MembersStatusMemory, deep_copy_into_members, ZookeeperClusterStatusMemory, status_form,
  deep_copy_into_status, deep_copy_status,
}

module _ (texts : Writes (List String)) (conditions : Writes (List ClusterCondition)) where
  abbrev members_after : MembersStatusMemory → MembersStatusMemory
  members_after m = record { ready = after texts m.ready; unready = after texts m.unready }

  -- the status after writes to lists of texts and to lists of conditions
  abbrev pub status_after : ZookeeperClusterStatusMemory → ZookeeperClusterStatusMemory
  status_after s = record s {
    members = members_after s.members;
    conditions = after conditions s.conditions;
  }

  members_after-copy :
      (m : MembersStatusMemory) (n : ℕ)
      → Spare n (deep_copy_into_members m n).1 texts
      → members_after (deep_copy_into_members m n).0 ≡ (deep_copy_into_members m n).0
  unfolding deep_copy_into_members
  members_after-copy m n h =
      let mid = (copy_cells m.ready n).1 in
      let hi = (copy_cells m.unready mid).1 in
      rw (
        after-copy_cells texts m.ready n
            (Spare-left n mid hi texts (Run-bounds (cells-IsDeep.fresh m.unready mid)) h),
        after-copy_cells texts m.unready mid
            (Spare-right n mid hi texts (Run-bounds (cells-IsDeep.fresh m.ready n)) h),
      )

  status_after-copy :
      (s : ZookeeperClusterStatusMemory) (n : ℕ)
      → Spare n (deep_copy_into_status s n).1 texts
      → Spare n (deep_copy_into_status s n).1 conditions
      → status_after (deep_copy_into_status s n).0 ≡ (deep_copy_into_status s n).0
  unfolding deep_copy_into_status
  status_after-copy s n h k =
      let mid = (deep_copy_into_members s.members n).1 in
      let hi = (copy_cells s.conditions mid).1 in
      rw (
        members_after-copy s.members n
            (Spare-left n mid hi texts (Run-bounds (cells-IsDeep.fresh s.conditions mid)) h),
        after-copy_cells conditions s.conditions mid (
            Spare-right n mid hi conditions
              (Run-bounds (deep_copy_into_members-IsDeep.fresh s.members n)) k),
      )

  -- a copy reads as the original did, whatever is written but to the addresses that it gave out
  pub value-status_after :
      (s : Ref ZookeeperClusterStatusMemory) (c : Ref ZookeeperClusterStatusMemory) (n hi : ℕ)
      → deep_copy_status (some s) n ≡ (some c, hi)
      → Spare n hi texts
      → Spare n hi conditions
      → status_form.value (status_after c.content) ≡ status_form.value s.content
  unfolding deep_copy_status
  value-status_after s c n hi e h k =
      let copied = deep_copy_into_status s.content (suc n) in
      let content : copied.0 ≡ c.content = cc in
      let ends : copied.1 ≡ hi = cc in
      ap (λ x. status_form.value (status_after x)) (sym content)
      ∙ ap (λ x. status_form.value x)
          (status_after-copy s.content (suc n) (λ a low high. h a (omega arith) (omega arith))
            (λ a low high. k a (omega arith) (omega arith)))
      ∙ deep_copy_into_status-IsDeep.keeps s.content (suc n)

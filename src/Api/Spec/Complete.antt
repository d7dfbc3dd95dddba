-- ===== src/Api/Spec/Complete.antt =====
-- The pointers that the generators follow, after WithDefaults.
use zookeeper_operator.Prelude.{
  String, Bool, true, false, Option, none, some, ◌≡◌, refl, Bool-cases, inl, inr,
}
use zookeeper_operator.Prelude.Maybe.{Given, given}
use zookeeper_operator.Api.Types.{
  Probe, Probes, Persistence, Ephemeral, ZookeeperClusterSpec, ZookeeperCluster,
}
use zookeeper_operator.Api.Defaults.{
  default_readiness_probe, default_liveness_probe, fill_probe, probes_with_defaults,
  persistence_with_defaults,
}
use zookeeper_operator.Api.Spec.{
  Storage, is_ephemeral, no_probes, probes_of, with_ephemeral, with_persistence,
  storage_with_defaults, spec_with_defaults, with_defaults,
}
use zookeeper_operator.Api.Spec.Settle.{
  storage_when_ephemeral, storage_when_persistent, persistence_is_not_ephemeral,
}

-- The storage that the storage type calls for is there.
pub record IsStored (storage_type : String) (persistence : Option Persistence)
    (ephemeral : Option Ephemeral) : Type 0 where
  pub when_ephemeral : is_ephemeral storage_type ≡ true → Given ephemeral
  pub when_persistent : is_ephemeral storage_type ≡ false → Given persistence

abbrev StoredIn : Storage → Type 0
StoredIn s = IsStored s.storage_type s.persistence s.ephemeral

module _ (is_zero : String → Bool) where
  with_ephemeral_stored :
      (s : Storage) (o : Option Ephemeral)
      → is_ephemeral s.storage_type ≡ true
      → s.ephemeral ≡ o
      → StoredIn (with_ephemeral is_zero s o).0
  unfolding with_ephemeral
  with_ephemeral_stored s none h e = record {
    when_ephemeral = λ _. given _;
    when_persistent = λ k. cc;
  }
  with_ephemeral_stored s (some x) h e = record {
    when_ephemeral = λ _. rw e (given x);
    when_persistent = λ k. cc;
  }

  with_persistence_stored :
      (s : Storage) (o : Option Persistence)
      → is_ephemeral s.storage_type ≡ false
      → StoredIn (with_persistence is_zero s o).0
  unfolding with_persistence
  with_persistence_stored s none h = record {
    when_ephemeral = λ k. cc (persistence_is_not_ephemeral);
    when_persistent = λ _. given _;
  }
  with_persistence_stored s (some p) h = elim (Bool-cases (persistence_with_defaults is_zero p).1) [
    | inl c ↦ rw c (record {
      when_ephemeral = λ k. cc (persistence_is_not_ephemeral);
      when_persistent = λ _. given _;
    })
    | inr c ↦ rw c (record { when_ephemeral = λ k. cc; when_persistent = λ _. given _ })
  ]

  storage_stored : (s : Storage) → StoredIn (storage_with_defaults is_zero s).0
  storage_stored s = elim (Bool-cases (is_ephemeral s.storage_type)) [
    | inl h ↦ rw (storage_when_ephemeral is_zero s h) (with_ephemeral_stored s s.ephemeral h refl)
    | inr h ↦ rw (storage_when_persistent is_zero s h) (with_persistence_stored s s.persistence h)
  ]

-- Both probes are set.
pub data BothProbes : Option Probes → Type 0 where
  both : (p : Probes) → Given p.readiness_probe → Given p.liveness_probe → BothProbes (some p)

fill_probe-Given : (o : Option Probe) (d : Probe) → Given (fill_probe o d).0
fill_probe-Given none d = given d
fill_probe-Given (some p) d = given p

probes_with_defaults_both : (p : Probes) → BothProbes (some (probes_with_defaults p).0)
unfolding probes_with_defaults
probes_with_defaults_both p =
    both _ (fill_probe-Given p.readiness_probe default_readiness_probe)
      (fill_probe-Given p.liveness_probe default_liveness_probe)

probes_of_both : (o : Option Probes) → BothProbes (some (probes_of o).0)
unfolding probes_of
probes_of_both none = probes_with_defaults_both no_probes
probes_of_both (some p) = probes_with_defaults_both p

-- What the generators need of a specification.
pub record IsComplete (s : ZookeeperClusterSpec) : Type 0 where
  pub probes_set : BothProbes s.probes
  pub stored : IsStored s.storage_type s.persistence s.ephemeral

-- The specification that WithDefaults leaves is complete.
pub with_defaults-IsComplete :
    (is_zero : String → Bool) (z : ZookeeperCluster) → IsComplete (with_defaults is_zero z).0.spec
unfolding with_defaults spec_with_defaults
with_defaults-IsComplete is_zero z = record {
  probes_set = probes_of_both z.spec.probes;
  stored = storage_stored is_zero _;
}

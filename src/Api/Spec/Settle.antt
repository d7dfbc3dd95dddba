-- ===== src/Api/Spec/Settle.antt =====
-- WithDefaults, called a second time.
use zookeeper_operator.Prelude.{
  ℤ, pos, scale_int, String, Bool, true, false, Option, none, some, ◌≡◌, refl, arith, ap,
  Bool-cases, inl, inr,
}
use zookeeper_operator.Std.Strings.{equal_fold}
use zookeeper_operator.Api.Types.{
  Probes, Persistence, Ephemeral, ZookeeperClusterSpec, ZookeeperCluster,
}
use zookeeper_operator.Api.Defaults.{is_unset, fill, persistence_with_defaults}
use zookeeper_operator.Api.Defaults.Settle.{
  Settles, image-Settles, conf-Settles, probes_settle, labels_settle, pod-Settles,
  persistence-Settles,
}
use zookeeper_operator.Api.Defaults.Ports.Complete.{ports_settle}
use zookeeper_operator.Api.Spec.{
  Storage, is_ephemeral, no_persistence, no_probes, probes_of, at_least_one, fill_replicas,
  with_ephemeral, with_persistence, storage_with_defaults, spec_with_defaults, with_defaults,
}

probes_of_settles :
    (p : Option Probes) → probes_of (some (probes_of p).0) ≡ ((probes_of p).0, false)
unfolding probes_of
probes_of_settles none = probes_settle no_probes
probes_of_settles (some p) = probes_settle p

at_least_one-Settles : (n : ℤ) → Settles at_least_one n
unfolding at_least_one
at_least_one-Settles n = ground arith

fill_replicas-Settles : (n : ℤ) → Settles fill_replicas n
unfolding fill_replicas
fill_replicas-Settles n = ground arith

pub persistence_is_not_ephemeral : is_ephemeral "persistence" ≡ false
unfolding equal_fold
persistence_is_not_ephemeral = refl

module _ (is_zero : String → Bool) (s : Storage) where
  pub storage_when_ephemeral :
      is_ephemeral s.storage_type ≡ true
      → storage_with_defaults is_zero s ≡ with_ephemeral is_zero s s.ephemeral
  unfolding storage_with_defaults
  storage_when_ephemeral h = rw h

  pub storage_when_persistent :
      is_ephemeral s.storage_type ≡ false
      → storage_with_defaults is_zero s ≡ with_persistence is_zero s s.persistence
  unfolding storage_with_defaults
  storage_when_persistent h = rw h

module _ (is_zero : String → Bool) (sized : is_zero "20Gi" ≡ false) where
  persist_again :
      (t : String) (p : Persistence) (e : Option Ephemeral)
      → is_ephemeral t ≡ false
      → let s : Storage = record {
        storage_type = t;
        persistence = some (persistence_with_defaults is_zero p).0;
        ephemeral = e;
      } in
        storage_with_defaults is_zero s ≡ (s, false)
  unfolding storage_with_defaults
  persist_again t p e h = rw h (rw (persistence-Settles is_zero sized p))

  with_persistence_settles :
      (s : Storage) (o : Option Persistence)
      → is_ephemeral s.storage_type ≡ false
      → storage_with_defaults is_zero (with_persistence is_zero s o).0
        ≡ ((with_persistence is_zero s o).0, false)
  unfolding with_persistence
  with_persistence_settles s none h =
      persist_again "persistence" no_persistence s.ephemeral persistence_is_not_ephemeral
  with_persistence_settles s (some p) h =
      elim (Bool-cases (persistence_with_defaults is_zero p).1) [
        | inl c ↦ rw c (persist_again "persistence" p s.ephemeral persistence_is_not_ephemeral)
        | inr c ↦ rw c (persist_again s.storage_type p s.ephemeral h)
      ]

  with_ephemeral_settles :
      (s : Storage) (o : Option Ephemeral)
      → is_ephemeral s.storage_type ≡ true
      → s.ephemeral ≡ o
      → storage_with_defaults is_zero (with_ephemeral is_zero s o).0
        ≡ ((with_ephemeral is_zero s o).0, false)
  unfolding storage_with_defaults
  with_ephemeral_settles s none h e = rw h
  with_ephemeral_settles s (some x) h e = rw h (ap (with_ephemeral is_zero s) e)

  storage-Settles : (s : Storage) → Settles (storage_with_defaults is_zero) s
  storage-Settles s = elim (Bool-cases (is_ephemeral s.storage_type)) [
    | inl h ↦ rw (storage_when_ephemeral is_zero s h) (with_ephemeral_settles s s.ephemeral h refl)
    | inr h ↦ rw (storage_when_persistent is_zero s h) (with_persistence_settles s s.persistence h)
  ]

  -- The session timeouts that default to a multiple of the tick time must not wrap to zero.
  spec-Settles :
      (name : String) (s : ZookeeperClusterSpec)
      → is_unset (scale_int 2 (fill s.conf.tick_time (pos 2000))) ≡ false
      → is_unset (scale_int 20 (fill s.conf.tick_time (pos 2000))) ≡ false
      → Settles (spec_with_defaults is_zero name) s
  unfolding spec_with_defaults
  spec-Settles name s h k = simp (
    image-Settles s.image,
    conf-Settles s.conf h k,
    fill_replicas-Settles s.replicas,
    probes_of_settles s.probes,
    ports_settle s.ports,
    labels_settle name s.labels,
    pod-Settles name s.pod,
    storage-Settles (record {
      storage_type = s.storage_type;
      persistence = s.persistence;
      ephemeral = s.ephemeral;
    }),
    at_least_one-Settles s.max_unavailable_replicas,
  )

-- Unless twice or twenty times the tick time wraps to zero in 64 bits, and where the default
-- volume size is no zero quantity: WithDefaults of a cluster that WithDefaults has filled in
-- changes nothing and reports no change.
pub with_defaults_settles :
    (is_zero : String → Bool) (z : ZookeeperCluster)
    → is_zero "20Gi" ≡ false
    → is_unset (scale_int 2 (fill z.spec.conf.tick_time (pos 2000))) ≡ false
    → is_unset (scale_int 20 (fill z.spec.conf.tick_time (pos 2000))) ≡ false
    → with_defaults is_zero (with_defaults is_zero z).0 ≡ ((with_defaults is_zero z).0, false)
unfolding with_defaults
with_defaults_settles is_zero z sized h k = simp (spec-Settles is_zero sized z.meta.name z.spec h k)

-- ===== src/Api/Spec/Bounds.antt =====
-- The numbers that the defaults leave.
use zookeeper_operator.Prelude.{
  ℕ, zero, suc, ◌*◌, ◌^◌, ◌≤◌, ◌<◌, ℤ, pos, negsuc, pos_part, ◌≤ℤ◌, ◌<ℤ◌, scale_int, String, List,
  [], ◌∷◌, ◌≡◌, refl, ap, arith, Bool,
}
use zookeeper_operator.Api.Types.{ZookeeperConfig, ZookeeperCluster}
use zookeeper_operator.Api.Defaults.{fill, is_unset, conf_with_defaults}
use zookeeper_operator.Api.Spec.{fill_replicas, at_least_one, spec_with_defaults, with_defaults}

abbrev pub Every : (ℤ → Type 0) → List ℤ → Type 0
Every P [] = Unit {0}
Every P (v ∷ vs) = P v × Every P vs

-- the numbers that the defaults fill in
abbrev pub numbers : ZookeeperConfig → List ℤ
numbers c =
    c.init_limit ∷ c.tick_time ∷ c.sync_limit ∷ c.global_outstanding_limit ∷ c.pre_alloc_size
    ∷ c.snap_count ∷ c.commit_log_count ∷ c.snap_size_limit_in_kb ∷ c.max_client_cnxns
    ∷ c.min_session_timeout ∷ c.max_session_timeout ∷ c.auto_purge_snap_retain_count
    ∷ c.auto_purge_purge_interval ∷ []

-- an `int` of 64 bits that is not negative, and one that is positive
abbrev pub IsNatural : ℤ → Type 0
IsNatural v = (pos 0 ≤ℤ v) × (v <ℤ pos (2 ^ 63))

abbrev pub IsPositive : ℤ → Type 0
IsPositive v = (pos 1 ≤ℤ v) × (v <ℤ pos (2 ^ 63))

fill-IsPositive : (v d : ℤ) → IsNatural v → IsPositive d → IsPositive (fill v d)
unfolding fill is_unset
fill-IsPositive v d h k = ground arith

scale_int-pos : (k n : ℕ) → k * n < 2 ^ 63 → scale_int k (pos n) ≡ pos (k * n)
unfolding scale_int
scale_int-pos k n h = ground arith

-- the tick time that counts
filled_tick :
    (v : ℤ)
    → IsNatural v
    → pos_part v * 20 < 2 ^ 63
    → (n : ℕ) × (fill v (pos 2000) ≡ pos n) × (1 ≤ n) × (n * 20 < 2 ^ 63)
unfolding fill is_unset
filled_tick (pos zero) h k = (2000, refl, omega arith, omega arith)
filled_tick (pos (suc n)) h k = (suc n, ground arith, omega arith, omega arith)
filled_tick (negsuc n) h k = elim (nonneg n h) [ ]
  where
    nonneg : (m : ℕ) → IsNatural (negsuc m) → ⊥
    nonneg m (l, u) = omega arith

module _ (c : ZookeeperConfig) (given : Every IsNatural (numbers c))
    (room : pos_part c.tick_time * 20 < 2 ^ 63) where
  abbrev tick : ℤ
  tick = fill c.tick_time (pos 2000)

  scaled : (k : ℕ) → 1 ≤ k → k ≤ 20 → scale_int k tick ≡ pos (k * pos_part tick)
  scaled k l u =
      let (n, e, low, high) = filled_tick c.tick_time given.1.0 room in
      rw e (scale_int-pos k n (grind arith))

  scaled-IsPositive : (k : ℕ) → 1 ≤ k → k ≤ 20 → IsPositive (scale_int k tick)
  scaled-IsPositive k l u =
      let (n, e, low, high) = filled_tick c.tick_time given.1.0 room in
      rw (scaled k l u, e) (grind arith, grind arith)

  conf_with_defaults-IsPositive : Every IsPositive (numbers (conf_with_defaults c).0)
  unfolding conf_with_defaults
  conf_with_defaults-IsPositive = (
    fill-IsPositive c.init_limit (pos 10) given.0 (omega arith, omega arith),
    (
      fill-IsPositive c.tick_time (pos 2000) given.1.0 (omega arith, omega arith),
      (
        fill-IsPositive c.sync_limit (pos 2) given.1.1.0 (omega arith, omega arith),
        (
          fill-IsPositive c.global_outstanding_limit (pos 1000) given.1.1.1.0
              (omega arith, omega arith),
          (
            fill-IsPositive c.pre_alloc_size (pos 65536) given.1.1.1.1.0 (omega arith, omega arith),
            (
              fill-IsPositive c.snap_count (pos 10000) given.1.1.1.1.1.0 (omega arith, omega arith),
              (
                fill-IsPositive c.commit_log_count (pos 500) given.1.1.1.1.1.1.0
                    (omega arith, omega arith),
                (
                  fill-IsPositive c.snap_size_limit_in_kb (pos 4194304) given.1.1.1.1.1.1.1.0
                      (omega arith, omega arith),
                  (
                    fill-IsPositive c.max_client_cnxns (pos 60) given.1.1.1.1.1.1.1.1.0
                        (omega arith, omega arith),
                    (
                      fill-IsPositive c.min_session_timeout (scale_int 2 tick)
                          given.1.1.1.1.1.1.1.1.1.0
                          (scaled-IsPositive 2 (omega arith) (omega arith)),
                      (
                        fill-IsPositive c.max_session_timeout (scale_int 20 tick)
                            given.1.1.1.1.1.1.1.1.1.1.0
                            (scaled-IsPositive 20 (omega arith) (omega arith)),
                        (
                          fill-IsPositive c.auto_purge_snap_retain_count (pos 3)
                              given.1.1.1.1.1.1.1.1.1.1.1.0 (omega arith, omega arith),
                          (
                            fill-IsPositive c.auto_purge_purge_interval (pos 1)
                                given.1.1.1.1.1.1.1.1.1.1.1.1.0 (omega arith, omega arith),
                            tt,
                          ),
                        ),
                      ),
                    ),
                  ),
                ),
              ),
            ),
          ),
        ),
      ),
    ),
  )

-- Where no number of the configuration is negative, twenty times the tick time fits 64 bits, and no
-- negative number of replicas is asked for: after WithDefaults every number of the configuration that
-- has a default is positive and fits 64 bits; the session timeouts that were left out are exactly
-- twice and twenty times the tick time that counts; and there is at least one replica, and at least one
-- that may be unavailable.
pub with_defaults-IsPositive :
    (is_zero : String → Bool) (z : ZookeeperCluster)
    → Every IsNatural (numbers z.spec.conf)
    → pos_part z.spec.conf.tick_time * 20 < 2 ^ 63
    → pos 0 ≤ℤ z.spec.replicas
    → let s = (with_defaults is_zero z).0.spec in
      let times = λ (k : ℕ). pos (k * pos_part s.conf.tick_time) in
      Every IsPositive (numbers s.conf)
      × (s.conf.min_session_timeout ≡ fill z.spec.conf.min_session_timeout (times 2))
      × (s.conf.max_session_timeout ≡ fill z.spec.conf.max_session_timeout (times 20))
      × (pos 1 ≤ℤ s.replicas)
      × (pos 1 ≤ℤ s.max_unavailable_replicas)
unfolding with_defaults spec_with_defaults conf_with_defaults fill_replicas at_least_one
with_defaults-IsPositive is_zero z given room asked =
    let c = z.spec.conf in
    (
      conf_with_defaults-IsPositive c given room,
      ap (fill c.min_session_timeout) (scaled c given room 2 (omega arith) (omega arith)),
      ap (fill c.max_session_timeout) (scaled c given room 20 (omega arith) (omega arith)),
      ground arith,
      ground arith,
    )

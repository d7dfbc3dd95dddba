-- ===== src/Api/Defaults/Settle.antt =====
-- The `withDefaults` of each part, called a second time.
use zookeeper_operator.Prelude.{
  ℤ, pos, scale_int, String, str_eq, eq_refl, Bool, true, false, Option, none, some, ◌≡◌, refl,
  arith, ℕ, ltb, Bool-cases, inl, inr, [], ◌∷◌, if◌then◌else◌,
}
use zookeeper_operator.Prelude.Dict.{Dict, get, has, entries, has-put}
use zookeeper_operator.Kube.Json.{Json}
use zookeeper_operator.Api.Types.{ContainerImage, Probes, PodPolicy, ZookeeperConfig, Persistence}
use zookeeper_operator.Api.Defaults.{
  image_with_defaults, is_blank, fill_text, retain, is_unset, fill, conf_with_defaults,
  probes_with_defaults, add_label, labels_with_defaults, fill_affinity, pod_with_defaults, is_valid,
  is_zero_quantity, persistence_with_defaults,
}

-- A second call of `f` on what the first one made changes nothing and reports no change.
abbrev pub Settles {ℓ} : {A : Type ℓ} → (A → A × Bool) → A → Type ℓ
Settles f x = f (f x).0 ≡ ((f x).0, false)

module _ (d : String) (given : str_eq d "" ≡ false) where
  is_blank-fill_text : (v : String) → is_blank (fill_text v d) ≡ false
  unfolding is_blank fill_text
  is_blank-fill_text v = ground (arith, given)

  fill_text-fill_text : (v : String) → fill_text (fill_text v d) d ≡ fill_text v d
  unfolding is_blank fill_text
  fill_text-fill_text v = ground (arith, given)

pub image-Settles : (c : ContainerImage) → Settles image_with_defaults c
unfolding image_with_defaults
image-Settles c = simp (
  is_blank-fill_text "ghcr.io/infonl/zookeeper" refl,
  is_blank-fill_text "0.2.16" refl,
  is_blank-fill_text "Always" refl,
  fill_text-fill_text "ghcr.io/infonl/zookeeper" refl,
  fill_text-fill_text "0.2.16" refl,
  fill_text-fill_text "Always" refl,
)

is_unset-fill : (v d : ℤ) → is_unset d ≡ false → is_unset (fill v d) ≡ false
unfolding fill
is_unset-fill v d h = ground (arith, h)

-- the same for a positive constant
is_unset-fill_pos : (n : ℕ) → ltb 0 n ≡ true → (v : ℤ) → is_unset (fill v (pos n)) ≡ false
unfolding fill is_unset
is_unset-fill_pos n h v = ground (arith, h)

fill-fill : (v d : ℤ) → fill (fill v d) d ≡ fill v d
unfolding fill
fill-fill v d = ground arith

pub probes_settle : (s : Probes) → Settles probes_with_defaults s
unfolding probes_with_defaults
probes_settle s = ground arith

has-add_label : (k v : String) (m : Dict) → has k (add_label k v m).0 ≡ true
unfolding add_label
has-add_label k v m = ground (arith, has-put k k v m, eq_refl k)

add_label_keeps : (k v j : String) (m : Dict) → has j m ≡ true → has j (add_label k v m).0 ≡ true
unfolding add_label
add_label_keeps k v j m h = ground (arith, has-put k j v m)

add_label_present : (k v : String) (m : Dict) → has k m ≡ true → add_label k v m ≡ (m, false)
unfolding add_label
add_label_present k v m h = rw h

pub labels_settle :
    (name : String) (labels : Option Dict) → Settles (labels_with_defaults name) labels
unfolding labels_with_defaults
labels_settle name labels =
    let m₁ = (add_label "app" name (entries labels)).0 in
    let m₂ = (add_label "release" name m₁).0 in
    rw (
      add_label_present "app" name m₂
          (add_label_keeps "release" name "app" m₁ (has-add_label "app" name (entries labels))),
      add_label_present "release" name m₂ (has-add_label "release" name m₁),
    )

fill_affinity-Settles : (name : String) (a : Option Json) → Settles (fill_affinity name) a
unfolding fill_affinity
fill_affinity-Settles name none = refl
fill_affinity-Settles name (some a) = refl

pub pod-Settles : (name : String) (p : PodPolicy) → Settles (pod_with_defaults name) p
unfolding pod_with_defaults
pod-Settles name p = simp (
  labels_settle name p.labels,
  fill_affinity-Settles name p.affinity,
  fill-fill,
  is_unset-fill_pos 30 refl,
  is_blank-fill_text "default" refl,
  fill_text-fill_text "default" refl,
)

fill_policy : (v : String) → is_valid (if is_valid v then v else retain) ≡ true
fill_policy v = elim (Bool-cases (is_valid v)) [
  | inl h ↦ rw h h
  | inr h ↦ rw h (unfold is_valid in refl)
]

module _ (is_zero : String → Bool) (sized : is_zero "20Gi" ≡ false) where
  fill_requests :
      (requests : Dict)
      → is_zero_quantity is_zero (
          get "storage" (
            if is_zero_quantity is_zero (get "storage" requests)
            then ("storage", "20Gi") ∷ []
            else requests))
        ≡ false
  unfolding is_zero_quantity get
  fill_requests requests = elim (Bool-cases (is_zero_quantity is_zero (get "storage" requests))) [
    | inl z ↦ rw z sized
    | inr z ↦ rw z z
  ]

  pub persistence-Settles : (p : Persistence) → Settles (persistence_with_defaults is_zero) p
  unfolding persistence_with_defaults
  persistence-Settles p =
      simp
        (fill_policy p.volume_reclaim_policy, fill_requests p.persistent_volume_claim_spec.requests)

pub conf-Settles :
    (c : ZookeeperConfig)
    → is_unset (scale_int 2 (fill c.tick_time (pos 2000))) ≡ false
    → is_unset (scale_int 20 (fill c.tick_time (pos 2000))) ≡ false
    → Settles conf_with_defaults c
unfolding conf_with_defaults
conf-Settles c h k = simp (
  fill-fill,
  is_unset-fill_pos 10 refl,
  is_unset-fill_pos 2000 refl,
  is_unset-fill_pos 2 refl,
  is_unset-fill_pos 1000 refl,
  is_unset-fill_pos 65536 refl,
  is_unset-fill_pos 10000 refl,
  is_unset-fill_pos 500 refl,
  is_unset-fill_pos 4194304 refl,
  is_unset-fill_pos 60 refl,
  is_unset-fill_pos 3 refl,
  is_unset-fill_pos 1 refl,
  is_unset-fill c.min_session_timeout _ h,
  is_unset-fill c.max_session_timeout _ k,
)

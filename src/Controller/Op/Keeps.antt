-- ===== src/Controller/Op/Keeps.antt =====
-- Invariants of steps: one rule for each way to build a step. The invariant says something of the
-- instance in memory and something of the world.
use zookeeper_operator.Prelude.{Bool, true, false, Option, none, some, ◌≡◌, refl, if◌then◌else◌}
use zookeeper_operator.Api.Types.{ZookeeperCluster}
use zookeeper_operator.Api.Status.{ZookeeperClusterStatus}
use zookeeper_operator.Controller.Interfaces.{Error, Result, ok, err}
use zookeeper_operator.Controller.Op.{
  State, Op, continue, ◌>>=◌, ◌>>◌, pure, raise, gets, call, ignoring, lift, deref, deferring,
  modify, modify_status,
}

-- `m` keeps the invariant, whether it returns or fails
pub record Keeps {W : Type 0} (On : ZookeeperCluster → Type 0) (G : W → Type 0) {A : Type 0}
    (m : Op W A) : Type 0 where
  pub at : (s : State W) → On s.instance × G s.world → On (m s).1.instance × G (m s).1.world

-- the instance that a write answers takes the place of the one in memory
keeps_stored :
    {W : Type 0} (On : ZookeeperCluster → Type 0) (G : W → Type 0) (s : State W)
    (p : Result ZookeeperCluster × W)
    → On s.instance
    → G p.1
    → ((z : ZookeeperCluster) → p.0 ≡ ok z → On z)
    → let t = (continue p.0 (λ stored. modify (λ _. stored)) (record s { world = p.1 })).1 in
      On t.instance × G t.world
keeps_stored On G s (ok z, w) h k f = (f z refl, k)
keeps_stored On G s (err e, w) h k f = (h, k)

module _ {W : Type 0} {On : ZookeeperCluster → Type 0} {G : W → Type 0} where
  module _ {A : Type 0} where
    pub Keeps-pure : (a : A) → Keeps On G (pure a)
    Keeps-pure a = record { at = λ s h. h }

    pub Keeps-raise : (e : Error) → Keeps On G (raise {A = A} e)
    Keeps-raise e = record { at = λ s h. h }

    pub Keeps-lift : (r : Result A) → Keeps On G (lift r)
    Keeps-lift r = record { at = λ s h. h }

    pub Keeps-gets : (f : State W → A) → Keeps On G (gets f)
    Keeps-gets f = record { at = λ s h. h }

    pub Keeps-deref : (o : Option A) → Keeps On G (deref o)
    Keeps-deref none = record { at = λ s h. h }
    Keeps-deref (some a) = record { at = λ s h. h }

    pub Keeps-call : (m : W → Result A × W) → ((w : W) → G w → G (m w).1) → Keeps On G (call m)
    Keeps-call m k = record { at = λ s h. (h.0, k s.world h.1) }

    pub Keeps-ignoring :
        (m : W → Result A × W) → ((w : W) → G w → G (m w).1) → Keeps On G (ignoring m)
    Keeps-ignoring m k = record { at = λ s h. (h.0, k s.world h.1) }

    pub Keeps-deferring :
        (last : W → W) (m : Op W A)
        → ((w : W) → G w → G (last w))
        → Keeps On G m
        → Keeps On G (deferring last m)
    Keeps-deferring last m k km = record {
      at = λ s h. let t = (m s).1 in ((km.at s h).0, k t.world (km.at s h).1);
    }

    pub Keeps-if :
        (b : Bool) (m n : Op W A) → Keeps On G m → Keeps On G n → Keeps On G (if b then m else n)
    Keeps-if true m n km kn = km
    Keeps-if false m n km kn = kn

  pub Keeps-modify :
      (f : ZookeeperCluster → ZookeeperCluster)
      → ((z : ZookeeperCluster) → On z → On (f z))
      → Keeps On G (modify f)
  Keeps-modify f k = record { at = λ s h. (k s.instance h.0, h.1) }

  pub Keeps-modify_status :
      (f : ZookeeperClusterStatus → ZookeeperClusterStatus)
      → ((z : ZookeeperCluster) → On z → On (record z { status = f z.status }))
      → Keeps On G (modify_status f)
  Keeps-modify_status f k = record { at = λ s h. (k s.instance h.0, h.1) }

  pub Keeps-store :
      (m : ZookeeperCluster → W → Result ZookeeperCluster × W)
      → ((z : ZookeeperCluster) (w : W) → On z → G w → G (m z w).1)
      → ((z : ZookeeperCluster) (w : W)
          → On z
          → G w
          → (y : ZookeeperCluster) → (m z w).0 ≡ ok y
          → On y)
      → Keeps On G
          (do instance ← gets (λ s. s.instance); stored ← call (m instance); modify (λ _. stored))
  Keeps-store m k f = record {
    at = λ s h.
        keeps_stored On G s (m s.instance s.world) h.0 (k s.instance s.world h.0 h.1)
          (f s.instance s.world h.0 h.1);
  }

  module _ {A B : Type 0} where
    Keeps-continue :
        (r : Result A) (f : A → Op W B) → ((a : A) → Keeps On G (f a)) → Keeps On G (continue r f)
    Keeps-continue (ok a) f k = k a
    Keeps-continue (err e) f k = record { at = λ s h. h }

    pub Keeps-bind :
        (m : Op W A) (f : A → Op W B)
        → Keeps On G m
        → ((a : A) → Keeps On G (f a))
        → Keeps On G (m >>= f)
    Keeps-bind m f km kf = record {
      at = λ s h. let (r, t) = m s in (Keeps-continue r f kf).at t (km.at s h);
    }

    pub Keeps-then : (m : Op W A) (k : Op W B) → Keeps On G m → Keeps On G k → Keeps On G (m >> k)
    Keeps-then m k km kk = Keeps-bind m (λ _. k) km (λ _. kk)

-- the rules that need nothing of the world
pub ruleset keeps_rules = (
  Keeps-pure, Keeps-raise, Keeps-lift, Keeps-gets, Keeps-deref, Keeps-call, Keeps-ignoring,
  Keeps-deferring, Keeps-if, Keeps-modify, Keeps-modify_status, Keeps-bind, Keeps-then,
)

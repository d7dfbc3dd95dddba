-- ===== src/Controller/Op/Brings.antt =====
-- What a step that succeeds has brought about in the world, and what it has returned: one rule for each
-- way to build a step.
use zookeeper_operator.Prelude.{Bool, true, false, ◌≡◌, refl, sym, ap, if◌then◌else◌}
use zookeeper_operator.Controller.Interfaces.{Error, Result, ok, err}
use zookeeper_operator.Controller.Op.{State, Op, continue, ◌>>=◌, pure, raise, call, deferring}

abbrev value_of : {A : Type 0} → A → Result A → A
value_of other (ok a) = a
value_of other (err e) = other

-- wherever `m` succeeds, `Q` holds of the world behind it
pub record Brings {W : Type 0} (Q : W → Type 0) {A : Type 0} (m : Op W A) : Type 0 where
  pub ends : (s : State W) (a : A) → (m s).0 ≡ ok a → Q (m s).1.world

-- wherever `m` succeeds, `P` holds of what it returns
pub record Yields {W A : Type 0} (P : A → Type 0) (m : Op W A) : Type 0 where
  pub gives : (s : State W) (a : A) → (m s).0 ≡ ok a → P a

module _ {W : Type 0} {Q : W → Type 0} where
  module _ {A : Type 0} where
    pub Brings-raise : (e : Error) → Brings Q (raise {A = A} e)
    Brings-raise e = record { ends = λ s a h. cc }

    pub Brings-if :
        (b : Bool) (m n : Op W A) → Brings Q m → Brings Q n → Brings Q (if b then m else n)
    Brings-if true m n km kn = km
    Brings-if false m n km kn = kn

    pub Brings-call :
        (m : W → Result A × W) → ((w v : W) (a : A) → m w ≡ (ok a, v) → Q v) → Brings Q (call m)
    Brings-call m k = record {
      ends = λ s a h. k s.world (m s.world).1 a (ap (λ x. (x, (m s.world).1)) h);
    }

    pub Brings-deferring :
        (last : W → W) (m : Op W A)
        → ((w : W) → Q w → Q (last w))
        → Brings Q m
        → Brings Q (deferring last m)
    Brings-deferring last m k km = record { ends = λ s a h. k (m s).1.world (km.ends s a h) }

  module _ {A B : Type 0} where
    -- the second step brings it about, from what the first has returned
    pub Brings-bind :
        (P : A → Type 0) (m : Op W A) (f : A → Op W B)
        → Yields P m
        → ((a : A) → P a → Brings Q (f a))
        → Brings Q (m >>= f)
    Brings-bind P m f y k = record { ends = λ s b h. go (m s).0 (m s).1 b (y.gives s) h }
      where
        go :
            (p : Result A) (t : State W) (b : B)
            → ((a : A) → p ≡ ok a → P a)
            → (continue p f t).0 ≡ ok b
            → Q (continue p f t).1.world
        go (ok a) t b g h = (k a (g a refl)).ends t b h
        go (err e) t b g h = cc

    -- the first step brings it about, and the second leaves it
    pub Brings-then :
        (m : Op W A) (f : A → Op W B)
        → Brings Q m
        → ((a : A) (t : State W) → Q t.world → Q (f a t).1.world)
        → Brings Q (m >>= f)
    Brings-then m f km k = record { ends = λ s b h. go (m s).0 (m s).1 b (km.ends s) h }
      where
        go :
            (p : Result A) (t : State W) (b : B)
            → ((a : A) → p ≡ ok a → Q t.world)
            → (continue p f t).0 ≡ ok b
            → Q (continue p f t).1.world
        go (ok a) t b g h = k a t (g a refl)
        go (err e) t b g h = cc

module _ {W A : Type 0} where
  pub Yields-any : (m : Op W A) → Yields (λ a. Unit {0}) m
  Yields-any m = record { gives = λ s a h. tt }

  pub Yields-raise : {P : A → Type 0} (e : Error) → Yields P (raise {W = W} e)
  Yields-raise e = record { gives = λ s a h. cc }

  pub Yields-pure : {P : A → Type 0} (a : A) → P a → Yields P (pure {W = W} a)
  Yields-pure {P = P} a p = record { gives = λ s b h. same b h }
    where
      same : (b : A) → ok a ≡ ok b → P b
      same b h = rw (sym (ap (value_of a) h)) p

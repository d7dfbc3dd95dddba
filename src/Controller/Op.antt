-- ===== src/Controller/Op.antt =====
-- A step of a reconciliation: it reads and changes the instance in memory and the world, and it may
-- fail. What was changed before a failure stays changed.
pub mod Keeps
pub mod Brings
use zookeeper_operator.Prelude.{Option, none, some}
use zookeeper_operator.Api.Types.{ZookeeperCluster}
use zookeeper_operator.Api.Status.{ZookeeperClusterStatus}
use zookeeper_operator.Controller.Interfaces.{Error, panic, Result, ok, err}

pub record State (W : Type 0) : Type 0 where
  pub instance : ZookeeperCluster
  pub world : W

abbrev pub Op : Type 0 → Type 0 → Type 0
Op W A = State W → Result A × State W

module _ {W A B : Type 0} where
  abbrev pub continue : Result A → (A → Op W B) → Op W B
  continue (ok a) f s = f a s
  continue (err e) f s = (err e, s)

  infixl 5 ◌>>=◌ ◌>>◌
  abbrev pub ◌>>=◌ : Op W A → (A → Op W B) → Op W B
  ◌>>=◌ m f s = let (r, t) = m s in continue r f t

  abbrev pub ◌>>◌ : Op W A → Op W B → Op W B
  m >> k = m >>= λ _. k

module _ {W A : Type 0} where
  abbrev pub pure : A → Op W A
  pure a s = (ok a, s)

  abbrev pub raise : Error → Op W A
  raise e s = (err e, s)

  abbrev pub gets : (State W → A) → Op W A
  gets f s = (ok (f s), s)

  -- a call of a client
  abbrev pub call : (W → Result A × W) → Op W A
  call m s = let (r, w) = m s.world in (r, record s { world = w })

  -- the error of a call of a client that the code does not look at
  abbrev pub ignoring : (W → Result A × W) → Op W (Unit {0})
  ignoring m s = let (r, w) = m s.world in (ok tt, record s { world = w })

  abbrev pub lift : Result A → Op W A
  lift r s = (r, s)

  -- a pointer that the code follows without a test
  abbrev pub deref : Option A → Op W A
  deref none = raise panic
  deref (some a) = pure a

  -- `defer`: the call is made when the rest has run, whatever it returned
  abbrev pub deferring : (W → W) → Op W A → Op W A
  deferring last m s = let (r, t) = m s in (r, record t { world = last t.world })

module _ {W : Type 0} where
  abbrev pub modify : (ZookeeperCluster → ZookeeperCluster) → Op W (Unit {0})
  modify f s = (ok tt, record s { instance = f s.instance })

  abbrev pub modify_status : (ZookeeperClusterStatus → ZookeeperClusterStatus) → Op W (Unit {0})
  modify_status f s =
      (ok tt, record s { instance = record s.instance { status = f s.instance.status } })

-- ===== src/Memory.antt =====
-- Values in memory: what Go reaches through a pointer, a map or a slice stands at an address, and two
-- values share it where they hold the same address.
pub mod Fresh
use zookeeper_operator.Prelude.{ℕ, suc, Option, none, some, List, [], ◌∷◌, ◌++◌}

pub record Ref (A : Type 0) : Type 0 where
  pub at : ℕ
  pub content : A

-- a pointer, a map or a slice; `none` is nil
abbrev pub Pointer : Type 0 → Type 0
Pointer A = Option (Ref A)

-- The state is the next address that was never given out.
abbrev pub Alloc : Type 0 → Type 0
Alloc A = ℕ → A × ℕ

abbrev pub pure : {A : Type 0} → A → Alloc A
pure a n = (a, n)

infixl 5 ◌>>=◌
abbrev pub ◌>>=◌ : {A B : Type 0} → Alloc A → (A → Alloc B) → Alloc B
◌>>=◌ m f n = let (a, n') = m n in f a n'

-- `new` and `make`
abbrev pub new : Alloc ℕ
new n = (n, suc n)

-- How a value lies in memory: the addresses that it holds, in the order in which a copy gives them
-- out, and the value that a reader finds.
pub record Form (T V : Type 0) : Type 0 where
  pub addresses : T → List ℕ
  pub value : T → V

-- a value without pointers
abbrev pub flat : {A : Type 0} → Form A A
flat = record { addresses = λ a. []; value = λ a. a }

module _ {T V : Type 0} (form : Form T V) where
  abbrev pub addresses_behind : Pointer T → List ℕ
  addresses_behind none = []
  addresses_behind (some r) = r.at ∷ form.addresses r.content

  abbrev pub value_behind : Pointer T → Option V
  value_behind none = none
  value_behind (some r) = some (form.value r.content)

  abbrev pub pointer : Form (Pointer T) (Option V)
  pointer = record { addresses = addresses_behind; value = value_behind }

  abbrev pub addresses_of_all : List T → List ℕ
  addresses_of_all [] = []
  addresses_of_all (t ∷ ts) = form.addresses t ++ addresses_of_all ts

  abbrev pub values_of_all : List T → List V
  values_of_all [] = []
  values_of_all (t ∷ ts) = form.value t ∷ values_of_all ts

  abbrev pub elements : Form (List T) (List V)
  elements = record { addresses = addresses_of_all; value = values_of_all }

-- a map or a slice whose entries hold no pointers
abbrev pub cells : {A : Type 0} → Form (Pointer A) (Option A)
cells = pointer flat

module _ {T : Type 0} (deep_copy_into : T → Alloc T) where
  -- nil stays nil; else room is made, and the content copied into it
  abbrev pub copy_pointer : Pointer T → Alloc (Pointer T)
  copy_pointer none = pure none
  copy_pointer (some r) = do
    a ← new
    t ← deep_copy_into r.content
    pure (some (record { at = a; content = t }))

  -- the loop over the elements
  abbrev pub copy_elements : List T → Alloc (List T)
  copy_elements [] = pure []
  copy_elements (t ∷ ts) = do c ← deep_copy_into t; cs ← copy_elements ts; pure (c ∷ cs)

-- a map entry by entry, or a slice by `copy`
abbrev pub copy_cells : {A : Type 0} → Pointer A → Alloc (Pointer A)
copy_cells = copy_pointer pure

-- what is written, by address; `none` leaves what is there
abbrev pub Writes : Type 0 → Type 0
Writes A = ℕ → Option A

abbrev written_at : {A : Type 0} → Option A → Ref A → Ref A
written_at none r = r
written_at (some a) r = record r { content = a }

-- what a pointer leads to after the writes
abbrev pub after : {A : Type 0} → Writes A → Pointer A → Pointer A
after w none = none
after w (some r) = some (written_at (w r.at) r)

-- ===== src/Memory/Fresh.antt =====
-- What a deep copy is.
use zookeeper_operator.Prelude.{
  ℕ, suc, ◌≤◌, ◌<◌, none, some, List, [], ◌∷◌, ◌++◌, ◌≡◌, refl, ap, arith,
}
use zookeeper_operator.Memory.{
  Pointer, Alloc, Form, flat, pointer, elements, cells, copy_pointer, copy_elements, copy_cells,
  Writes, after,
}

-- ascending addresses from `lo` on, below `hi`: no one occurs twice
pub data Run : ℕ → ℕ → List ℕ → Type 0 where
  stop : {lo hi : ℕ} → lo ≤ hi → Run lo hi []
  next : {lo hi : ℕ} (a : ℕ) {xs : List ℕ} → lo ≤ a → Run (suc a) hi xs → Run lo hi (a ∷ xs)

pub Run-bounds : {lo hi : ℕ} {xs : List ℕ} → Run lo hi xs → lo ≤ hi
Run-bounds (stop h) = h
Run-bounds (next a h k) = let up = Run-bounds k in omega arith

Run-lower : {lo lower hi : ℕ} {xs : List ℕ} → lower ≤ lo → Run lo hi xs → Run lower hi xs
Run-lower l (stop h) = stop (omega arith)
Run-lower l (next a h k) = next a (omega arith) k

-- what one copy gives out, and then what the next one does
infixl 5 ◌then◌
pub ◌then◌ : {lo mid hi : ℕ} {xs ys : List ℕ} → Run lo mid xs → Run mid hi ys → Run lo hi (xs ++ ys)
stop h then k = Run-lower h k
next a h j then k = next a h (j then k)

-- A deep copy reads xs the original does, and holds none but new addresses, no one twice.
pub record IsDeep {T V : Type 0} (form : Form T V) (copy : T → Alloc T) : Type 0 where
  pub keeps : (t : T) (n : ℕ) → form.value (copy t n).0 ≡ form.value t
  pub fresh : (t : T) (n : ℕ) → Run n (copy t n).1 (form.addresses (copy t n).0)

pub flat-IsDeep : {A : Type 0} → IsDeep (flat {A = A}) (λ a n. (a, n))
flat-IsDeep = record { keeps = λ a n. refl; fresh = λ a n. stop (omega arith) }

module _ {T V : Type 0} {form : Form T V} {copy : T → Alloc T} (deep : IsDeep form copy) where
  pointer-keeps :
      (p : Pointer T) (n : ℕ)
      → (pointer form).value (copy_pointer copy p n).0 ≡ (pointer form).value p
  pointer-keeps none n = refl
  pointer-keeps (some r) n = ap (λ v. some v) (deep.keeps r.content (suc n))

  pointer-fresh :
      (p : Pointer T) (n : ℕ)
      → Run n (copy_pointer copy p n).1 ((pointer form).addresses (copy_pointer copy p n).0)
  pointer-fresh none n = stop (omega arith)
  pointer-fresh (some r) n = next n (omega arith) (deep.fresh r.content (suc n))

  pub pointer-IsDeep : IsDeep (pointer form) (copy_pointer copy)
  pointer-IsDeep = record { keeps = pointer-keeps; fresh = pointer-fresh }

  elements-keeps :
      (ts : List T) (n : ℕ)
      → (elements form).value (copy_elements copy ts n).0 ≡ (elements form).value ts
  elements-keeps [] n = refl
  elements-keeps (t ∷ ts) n = let m = (copy t n).1 in rw (deep.keeps t n, elements-keeps ts m)

  elements-fresh :
      (ts : List T) (n : ℕ)
      → Run n (copy_elements copy ts n).1 ((elements form).addresses (copy_elements copy ts n).0)
  elements-fresh [] n = stop (omega arith)
  elements-fresh (t ∷ ts) n = deep.fresh t n then elements-fresh ts (copy t n).1

  pub elements-IsDeep : IsDeep (elements form) (copy_elements copy)
  elements-IsDeep = record { keeps = elements-keeps; fresh = elements-fresh }

pub cells-IsDeep : {A : Type 0} → IsDeep (cells {A = A}) copy_cells
cells-IsDeep = pointer-IsDeep flat-IsDeep

-- writes that leave the addresses from `lo` on, below `hi`
abbrev pub Spare : {A : Type 0} → ℕ → ℕ → Writes A → Type 0
Spare lo hi w = (a : ℕ) → lo ≤ a → a < hi → w a ≡ none

pub Spare-left :
    {A : Type 0} (lo mid hi : ℕ) (w : Writes A) → mid ≤ hi → Spare lo hi w → Spare lo mid w
Spare-left lo mid hi w l h a low high = h a low (omega arith)

pub Spare-right :
    {A : Type 0} (lo mid hi : ℕ) (w : Writes A) → lo ≤ mid → Spare lo hi w → Spare mid hi w
Spare-right lo mid hi w l h a low high = h a (omega arith) high

-- a copy of a map or a slice is not written through any address but its own
pub after-copy_cells :
    {A : Type 0} (w : Writes A) (p : Pointer A) (n : ℕ)
    → Spare n (copy_cells p n).1 w
    → after w (copy_cells p n).0 ≡ (copy_cells p n).0
after-copy_cells w none n h = refl
after-copy_cells w (some r) n h = rw (h n (omega arith) (omega arith))

-- ===== src/Prelude/Int.antt =====
-- Signed integers over the native numbers, with the fixed widths of Go.
use Prim.Native.Nat.{ℕ, suc, ◌+◌, ◌-◌, ◌*◌, ◌%◌, ◌^◌, ◌≤◌, ◌<◌}
use mathlib.Core.Path.{◌≡◌}
use mathlib.Core.Logic.{◌↔◌}
use mathlib.Core.Bool.{Bool, true}
use native.Mathlib.Omega.{arith}
use zookeeper_operator.Prelude.Tests.{ltb, leb, ◌==◌, if◌then◌else◌}

-- `negsuc n` is -(n + 1).
pub data ℤ : Type 0 where
  pos : ℕ → ℤ
  negsuc : ℕ → ℤ

abbrev pub pos_part : ℤ → ℕ
pos_part (pos n) = n
pos_part (negsuc n) = 0

abbrev pub neg_part : ℤ → ℕ
neg_part (pos n) = 0
neg_part (negsuc n) = suc n

infix 50 ◌≤ℤ◌ ◌<ℤ◌
abbrev pub ◌≤ℤ◌ : ℤ → ℤ → Type 0
a ≤ℤ b = pos_part a + neg_part b ≤ pos_part b + neg_part a

abbrev pub ◌<ℤ◌ : ℤ → ℤ → Type 0
a <ℤ b = pos_part a + neg_part b < pos_part b + neg_part a

-- the tests `a < b`, `a <= b` and `a == b` of Go's signed integers
abbrev pub ltb_ℤ : ℤ → ℤ → Bool
ltb_ℤ a b = ltb (pos_part a + neg_part b) (pos_part b + neg_part a)

abbrev pub leb_ℤ : ℤ → ℤ → Bool
leb_ℤ a b = leb (pos_part a + neg_part b) (pos_part b + neg_part a)

abbrev pub eq_ℤ : ℤ → ℤ → Bool
eq_ℤ a b = pos_part a + neg_part b == pos_part b + neg_part a

pub eq_ℤ_iff : (a b : ℤ) → (eq_ℤ a b ≡ true) ↔ (a ≡ b)
eq_ℤ_iff a b = ground arith

-- Two's complement: the signed integer of 32 bits whose bit pattern is that of `n`.
abbrev signed_32 : ℕ → ℤ
signed_32 n = if ltb n (2 ^ 31) then pos n else negsuc (2 ^ 32 - 1 - n)

-- the conversion `int32(z)`
unfoldable pub int32 : ℤ → ℤ
int32 (pos n) = signed_32 (n % 2 ^ 32)
int32 (negsuc n) = signed_32 (2 ^ 32 - 1 - n % 2 ^ 32)

-- A value that fits 32 bits is left alone.
pub int32-pos : (n : ℕ) → n < 2 ^ 31 → int32 (pos n) ≡ pos n
unfolding int32
int32-pos n h = ground arith

-- Two's complement for 64 bits.
abbrev signed_64 : ℕ → ℤ
signed_64 n = if ltb n (2 ^ 63) then pos n else negsuc (2 ^ 64 - 1 - n)

-- the product `k * z` of Go's `int` by a small constant
unfoldable pub scale_int : ℕ → ℤ → ℤ
scale_int k (pos n) = signed_64 (k * n % 2 ^ 64)
scale_int k (negsuc n) = signed_64 ((2 ^ 64 - k * suc n % 2 ^ 64) % 2 ^ 64)

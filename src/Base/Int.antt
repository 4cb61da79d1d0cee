-- ===== src/Base/Int.antt =====
-- Signed integers over the native numbers, for `BigInt` amounts and `i64` epochs. Sums and orders
-- go through the two parts of an integer.
use Prim.Native.Nat.{ℕ, suc, ◌+◌, ◌-◌, ◌*◌, ◌/◌, ◌%◌, ◌≤◌}
use mathlib.Core.Path.{◌≡◌}
use mathlib.Core.Bool.{Bool}
use native.Mathlib.Omega.{arith}
use forest.Base.Tests.{leb, ltb, ◌==◌, if◌then◌else◌}

-- `negsuc n` is -(n + 1).
pub data ℤ : Type 0 where
  pos : ℕ → ℤ
  negsuc : ℕ → ℤ

abbrev pub pos_part : ℤ → ℕ
pos_part (pos n) = n
pos_part (negsuc n) = 0

abbrev pub neg_part : ℤ → ℕ
neg_part (pos n) = 0
neg_part (negsuc n) = suc n

-- a - b, as an integer.
abbrev pub sub_ℕ : ℕ → ℕ → ℤ
sub_ℕ a b = if leb b a then pos (a - b) else negsuc (b - a - 1)

infixl 65 ◌+ℤ◌ ◌-ℤ◌
infixl 70 ◌*ℤ◌
infix 50 ◌≤ℤ◌ ◌<ℤ◌
unfoldable pub ◌+ℤ◌ : ℤ → ℤ → ℤ
a +ℤ b = sub_ℕ (pos_part a + pos_part b) (neg_part a + neg_part b)

unfoldable pub ◌-ℤ◌ : ℤ → ℤ → ℤ
a -ℤ b = sub_ℕ (pos_part a + neg_part b) (neg_part a + pos_part b)

unfoldable pub ◌*ℤ◌ : ℤ → ℤ → ℤ
a *ℤ b =
    sub_ℕ (pos_part a * pos_part b + neg_part a * neg_part b)
      (pos_part a * neg_part b + neg_part a * pos_part b)

abbrev pub ◌≤ℤ◌ : ℤ → ℤ → Type 0
a ≤ℤ b = pos_part a + neg_part b ≤ pos_part b + neg_part a

abbrev pub ◌<ℤ◌ : ℤ → ℤ → Type 0
a <ℤ b = suc (pos_part a + neg_part b) ≤ pos_part b + neg_part a

abbrev pub ltb_ℤ : ℤ → ℤ → Bool
ltb_ℤ a b = ltb (pos_part a + neg_part b) (pos_part b + neg_part a)

abbrev pub leb_ℤ : ℤ → ℤ → Bool
leb_ℤ a b = leb (pos_part a + neg_part b) (pos_part b + neg_part a)

abbrev pub eqb_ℤ : ℤ → ℤ → Bool
eqb_ℤ a b = (pos_part a + neg_part b) == (pos_part b + neg_part a)

pub +ℤ_parts :
    (a b : ℤ)
    → pos_part (a +ℤ b) + neg_part a + neg_part b ≡ neg_part (a +ℤ b) + pos_part a + pos_part b
unfolding ◌+ℤ◌
+ℤ_parts a b = ground arith

pub -ℤ_parts :
    (a b : ℤ)
    → pos_part (a -ℤ b) + neg_part a + pos_part b ≡ neg_part (a -ℤ b) + pos_part a + neg_part b
unfolding ◌-ℤ◌
-ℤ_parts a b = ground arith

pub eq_of_parts : (a b : ℤ) → pos_part a + neg_part b ≡ pos_part b + neg_part a → a ≡ b
eq_of_parts a b h = ground arith

-- Of the two parts of an integer one is zero.
pub parts_zero : (a : ℤ) → pos_part a * neg_part a ≡ 0
parts_zero (pos n) = omega arith
parts_zero (negsuc n) = omega arith

pub pos-*ℤ : (m n : ℕ) → pos m *ℤ pos n ≡ pos (m * n)
unfolding ◌*ℤ◌
pos-*ℤ m n = ground arith

pub pos--ℤ : (m n : ℕ) → n ≤ m → pos m -ℤ pos n ≡ pos (m - n)
unfolding ◌-ℤ◌
pos--ℤ m n h = ground arith

pub ruleset int_laws = (arith, +ℤ_parts, -ℤ_parts, eq_of_parts)

-- The rounded-up quotient of two integers, for a positive divisor: `num_integer`'s `div_ceil`.
unfoldable pub div_ceil : ℤ → ℕ → ℤ
div_ceil (pos n) d = pos ((n + d - 1) / d)
div_ceil (negsuc n) d = sub_ℕ 0 (suc n / d)

-- A 64-bit signed value: the representative of an integer modulo 2^64 in [-2^63, 2^63).
abbrev pub i64_mod : ℕ
i64_mod = 0x1_0000_0000_0000_0000

abbrev pub i64_half : ℕ
i64_half = 0x8000_0000_0000_0000

signed : ℕ → ℤ
signed n = if ltb n i64_half then pos n else sub_ℕ n i64_mod

unfoldable pub wrap_i64 : ℤ → ℤ
unfolding signed
wrap_i64 (pos n) = signed (n % i64_mod)
wrap_i64 (negsuc n) = signed ((i64_mod - 1) - n % i64_mod)

-- Within the range nothing wraps.
abbrev pub IsI64 : ℤ → Type 0
IsI64 a = (pos_part a + 1 ≤ i64_half) × (neg_part a ≤ i64_half)

pub wrap_i64-eq : (a : ℤ) → IsI64 a → wrap_i64 a ≡ a
unfolding wrap_i64
wrap_i64-eq (pos n) h = ground arith
wrap_i64-eq (negsuc n) h = ground arith

-- ===== src/Base/Words.antt =====
-- Arithmetic on `usize` (64 bits), with the wrap-around of a release build.
use Prim.Native.Nat.{ℕ, ◌+◌, ◌-◌, ◌%◌, ◌≤◌, ◌<◌}
use mathlib.Core.Path.{◌≡◌}
use native.Mathlib.Omega.{arith}

abbrev pub usize_mod : ℕ
usize_mod = 0x1_0000_0000_0000_0000

unfoldable pub add_usize : ℕ → ℕ → ℕ
add_usize a b = (a + b) % usize_mod

unfoldable pub sub_usize : ℕ → ℕ → ℕ
sub_usize a b = (a + usize_mod - b) % usize_mod

pub add_usize-eq : (a b : ℕ) → a + b < usize_mod → add_usize a b ≡ a + b
unfolding add_usize
add_usize-eq a b h = omega arith

pub sub_usize-eq : (a b : ℕ) → b ≤ a → a < usize_mod → sub_usize a b ≡ a - b
unfolding sub_usize
sub_usize-eq a b h k = omega arith

-- ===== src/Prelude/Words.antt =====
-- `uint32_t`: the wrap-around of an unsigned 32-bit result.
use Prim.Native.Nat.{ℕ, ◌^◌, ◌%◌, ◌<◌, ◌≤◌, ◌+◌, ◌-◌}
use mathlib.Core.Path.{◌≡◌}
use native.Mathlib.Omega.{arith}

abbrev pub u32_mod : ℕ
u32_mod = 2 ^ 32

unfoldable pub u32 : ℕ → ℕ
u32 n = n % u32_mod

-- A value below 2 ^ 32 is kept.
pub u32-eq_of_lt : (n : ℕ) → n < u32_mod → u32 n ≡ n
unfolding u32
u32-eq_of_lt n h = omega arith

pub u32-lt : (n : ℕ) → u32 n < u32_mod
unfolding u32
u32-lt n = omega arith

pub u32-le : (n : ℕ) → u32 n ≤ n
unfolding u32
u32-le n = omega arith

-- The inner reduction of a sum does not matter.
pub u32-add_u32 : (a b c : ℕ) → u32 (u32 (a + b) + c) ≡ u32 (a + (b + c))
unfolding u32
u32-add_u32 a b c = omega arith

-- Adding after a reduction of one side.
pub u32-add_left : (a b : ℕ) → u32 (u32 a + b) ≡ u32 (a + b)
unfolding u32
u32-add_left a b = omega arith

-- The subtraction of unsigned numbers undoes the addition.
pub u32-sub : (a b : ℕ) → a < u32_mod → u32 (u32 (a + b) + u32_mod - a) ≡ u32 b
unfolding u32
u32-sub a b h = omega arith

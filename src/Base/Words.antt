-- ===== src/Base/Words.antt =====
-- Unsigned words: the wrap of `uint32_t` and of a 64-bit `size_t` written out.
use Prim.Native.Nat.{ℕ, ◌+◌, ◌-◌, ◌*◌, ◌/◌, ◌%◌, ◌^◌, ◌≤◌, ◌<◌}
use mathlib.Core.Path.{◌≡◌}
use native.Mathlib.Omega.{arith}

abbrev pub u16_mod : ℕ
u16_mod = 2 ^ 16

abbrev pub u32_mod : ℕ
u32_mod = 2 ^ 32

abbrev pub u64_mod : ℕ
u64_mod = 2 ^ 64

abbrev pub add32 : ℕ → ℕ → ℕ
add32 a b = (a + b) % u32_mod

abbrev pub sub32 : ℕ → ℕ → ℕ
sub32 a b = (a + u32_mod - b) % u32_mod

abbrev pub add64 : ℕ → ℕ → ℕ
add64 a b = (a + b) % u64_mod

abbrev pub sub64 : ℕ → ℕ → ℕ
sub64 a b = (a + u64_mod - b) % u64_mod

abbrev pub mul64 : ℕ → ℕ → ℕ
mul64 a b = (a * b) % u64_mod

pub add64_lem : (a b : ℕ) → a + b < u64_mod → add64 a b ≡ a + b
add64_lem a b h = omega arith

pub sub64_lem : (a b : ℕ) → b ≤ a → a < u64_mod → sub64 a b ≡ a - b
sub64_lem a b h k = omega arith

-- A product of two 32-bit values fits in 64 bits.
pub mul64_lem : (a b : ℕ) → a < u32_mod → b < u32_mod → mul64 a b ≡ a * b
mul64_lem a b h k = grind arith

pub div-le : (a b c : ℕ) → 0 < c → a ≤ b * c → a / c ≤ b
div-le a b c h k = grind arith

pub div-mul-le : (a c : ℕ) → a / c * c ≤ a
div-mul-le a c = grind arith

pub div-mul-gt : (a c : ℕ) → 0 < c → a < a / c * c + c
div-mul-gt a c h = grind arith

pub mul-lt_u64 : (a b : ℕ) → a < u32_mod → b < u32_mod → a * b < u64_mod
mul-lt_u64 a b h k = grind arith

pub pos_of_mul : (a b : ℕ) → 0 < a * b → 0 < b
pos_of_mul a b h = grind arith

pub div-eq_zero : (a b : ℕ) → a < b → a / b ≡ 0
div-eq_zero a b h = grind arith

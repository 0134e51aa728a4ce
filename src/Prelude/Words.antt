-- ===== src/Prelude/Words.antt =====
-- Machine-width unsigned integers as native numbers: casts and wrapping operators by `%`.
use Prim.Native.Nat.{ℕ, ◌+◌, ◌-◌, ◌*◌, ◌/◌, ◌%◌, ◌^◌, ◌≤◌, ◌<◌}
use mathlib.Core.Path.{◌≡◌}
use mathlib.Core.Option.{Option, none, some}
use native.Mathlib.Nat.{mul-le-mul}
use native.Mathlib.Omega.{arith}
use trading_aggregators.Prelude.Tests.{ltb, leb, ◌==◌, if◌then◌else◌}

-- `x as u64`
abbrev pub as_u64 : ℕ → ℕ
as_u64 x = x % 2 ^ 64

-- `a + b` and `a - b` on `u64`, as a release build computes them.
abbrev pub add_u64 : ℕ → ℕ → ℕ
add_u64 a b = (a + b) % 2 ^ 64

abbrev pub sub_u64 : ℕ → ℕ → ℕ
sub_u64 a b = (a + 2 ^ 64 - b) % 2 ^ 64

abbrev pub checked_add_u64 : ℕ → ℕ → Option ℕ
checked_add_u64 a b = if ltb (a + b) (2 ^ 64) then some (a + b) else none

abbrev pub checked_sub : ℕ → ℕ → Option ℕ
checked_sub a b = if leb b a then some (a - b) else none

-- `u128`, into which two `u64` values are multiplied.
abbrev pub add_u128 : ℕ → ℕ → ℕ
add_u128 a b = (a + b) % 2 ^ 128

unfoldable pub mul_u128 : ℕ → ℕ → ℕ
mul_u128 a b = (a * b) % 2 ^ 128

-- `div_ceil`
abbrev pub div_ceil : ℕ → ℕ → ℕ
div_ceil a b = a / b + (if a % b == 0 then 0 else 1)

-- 256-bit amounts, whose operators wrap.
abbrev pub add_u256 : ℕ → ℕ → ℕ
add_u256 a b = (a + b) % 2 ^ 256

abbrev pub sub_u256 : ℕ → ℕ → ℕ
sub_u256 a b = (a + 2 ^ 256 - b) % 2 ^ 256

pub mul_u256 : ℕ → ℕ → ℕ
mul_u256 a b = (a * b) % 2 ^ 256

-- Products of two words fit.
pub mul_u64_lt : (a b : ℕ) → a < 2 ^ 64 → b < 2 ^ 64 → a * b < 2 ^ 128 - 2 ^ 64
mul_u64_lt a b ha hb =
    let p : a * b ≤ (2 ^ 64 - 1) * (2 ^ 64 - 1) =
      mul-le-mul {n₂ = 2 ^ 64 - 1} {m₂ = 2 ^ 64 - 1} (omega arith) (omega arith) in
    omega arith

pub mul_u128-eq_mul : (a b : ℕ) → a < 2 ^ 64 → b < 2 ^ 64 → mul_u128 a b ≡ a * b
unfolding mul_u128
mul_u128-eq_mul a b ha hb = omega (arith, mul_u64_lt a b ha hb)

pub mul_u256-eq_mul : (a b : ℕ) → a * b < 2 ^ 256 → mul_u256 a b ≡ a * b
unfolding mul_u256
mul_u256-eq_mul a b h = omega arith

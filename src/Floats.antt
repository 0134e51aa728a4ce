-- ===== src/Floats.antt =====
-- `f64` values as their bit patterns. The operations are the machine's, and parameters here.
use trading_aggregators.Prelude.{ℕ, Bool}

abbrev pub F64 : Type 0
F64 = ℕ

pub record Floats : Type 0 where
  pub of_u64 : ℕ → F64
  -- `x as u32`
  pub to_u32 : F64 → ℕ
  pub mul : F64 → F64 → F64
  pub div : F64 → F64 → F64
  pub sub : F64 → F64 → F64
  pub is_finite : F64 → Bool
  -- `a < b` and `a <= b`
  pub lt : F64 → F64 → Bool
  pub le : F64 → F64 → Bool

-- 0.0, 1.0, 1.2, 100.0 and 1000000.0.
abbrev pub f_zero : F64
f_zero = 0

abbrev pub f_one : F64
f_one = 0x3ff0_0000_0000_0000

abbrev pub f_1_2 : F64
f_1_2 = 0x3ff3_3333_3333_3333

abbrev pub f_hundred : F64
f_hundred = 0x4059_0000_0000_0000

abbrev pub f_million : F64
f_million = 0x412e_8480_0000_0000

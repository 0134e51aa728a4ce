-- ===== src/Solana/Common/Bounds.antt =====
-- What the pool arithmetic of `src/solana/dexes/common.rs` computes: no cast truncates, pools never
-- lose value, and slippage and fees round the way the names say.
use trading_aggregators.Prelude.{ℕ, ◌+◌, ◌-◌, ◌*◌, ◌/◌, ◌^◌, ◌≤◌, ◌<◌, ◌≡◌, ap, arith}
use trading_aggregators.Prelude.Words.{mul_u128-eq_mul}
use trading_aggregators.Solana.Common.{
  base_out_for_quote_in, quote_out_for_base_in, fee_floor, fee_ceil, slippage_down,
}

-- `x` is the whole part of `a / b`.
abbrev pub IsFloor : ℕ → ℕ → ℕ → Type 0
IsFloor x a b = (x * b ≤ a) × (a < x * b + b)

pub IsFloor-div : (a b : ℕ) → 0 < b → IsFloor (a / b) a b
IsFloor-div a b h = grind arith

-- The share of `b` that belongs to `i` out of `q + i` is at most `b`.
share_le : (q b i : ℕ) → 0 < q + i → b * i / (q + i) ≤ b
share_le q b i h = grind (arith, IsFloor-div (b * i) (q + i) h)

pub base_out_for_quote_in-IsFloor :
    (q b i : ℕ)
    → 0 < q
    → 0 < b
    → q < 2 ^ 64
    → b < 2 ^ 64
    → i < 2 ^ 64
    → IsFloor (base_out_for_quote_in q b i) (b * i) (q + i)
unfolding base_out_for_quote_in
base_out_for_quote_in-IsFloor q b i hq0 hb0 hq hb hi = ground (
  arith,
  mul_u128-eq_mul b i hb hi,
  IsFloor-div (b * i) (q + i) (omega arith),
  share_le q b i (omega arith),
)

pub quote_out_for_base_in-IsFloor :
    (q b i : ℕ)
    → 0 < q
    → 0 < b
    → q < 2 ^ 64
    → b < 2 ^ 64
    → i < 2 ^ 64
    → IsFloor (quote_out_for_base_in q b i) (q * i) (b + i)
unfolding quote_out_for_base_in
quote_out_for_base_in-IsFloor q b i hq0 hb0 hq hb hi = ground (
  arith,
  mul_u128-eq_mul q i hq hi,
  IsFloor-div (q * i) (b + i) (omega arith),
  share_le b q i (omega arith),
)

-- For every reserve, the empty ones included, the output is at most the reserve.
pub base_out_for_quote_in-le :
    (q b i : ℕ) → q < 2 ^ 64 → b < 2 ^ 64 → i < 2 ^ 64 → base_out_for_quote_in q b i ≤ b
unfolding base_out_for_quote_in
base_out_for_quote_in-le q b i hq hb hi = ground (arith, mul_u128-eq_mul b i hb hi, share_le q b i)

pub quote_out_for_base_in-le :
    (q b i : ℕ) → q < 2 ^ 64 → b < 2 ^ 64 → i < 2 ^ 64 → quote_out_for_base_in q b i ≤ q
unfolding quote_out_for_base_in
quote_out_for_base_in-le q b i hq hb hi = ground (arith, mul_u128-eq_mul q i hq hi, share_le b q i)

kept_product : (q b i x : ℕ) → x ≤ b → x * (q + i) ≤ b * i → q * b ≤ (q + i) * (b - x)
kept_product q b i x hx h =
    let e : b ≡ (b - x) + x = omega arith in omega (arith, ap (λ (t : ℕ). (q + i) * t) e)

-- Buying from a pool never lowers the product of its reserves, and one more token of output would:
-- for `u64` reserves and input, all of whose casts and products are exact.
pub buy_keeps_product :
    (q b i : ℕ)
    → 0 < q
    → 0 < b
    → q < 2 ^ 64
    → b < 2 ^ 64
    → i < 2 ^ 64
    → let out = base_out_for_quote_in q b i in
      (q * b ≤ (q + i) * (b - out)) × (b * i < (out + 1) * (q + i))
buy_keeps_product q b i hq0 hb0 hq hb hi =
    let (lo, hi') = base_out_for_quote_in-IsFloor q b i hq0 hb0 hq hb hi in
    (kept_product q b i _ (base_out_for_quote_in-le q b i hq hb hi) lo, omega arith)

-- Selling into a pool never lowers the product of its reserves, and one more unit of output would.
pub sell_keeps_product :
    (q b i : ℕ)
    → 0 < q
    → 0 < b
    → q < 2 ^ 64
    → b < 2 ^ 64
    → i < 2 ^ 64
    → let out = quote_out_for_base_in q b i in
      (q * b ≤ (q - out) * (b + i)) × (q * i < (out + 1) * (b + i))
sell_keeps_product q b i hq0 hb0 hq hb hi =
    let (lo, hi') = quote_out_for_base_in-IsFloor q b i hq0 hb0 hq hb hi in
    (omega (arith, kept_product b q i _ (quote_out_for_base_in-le q b i hq hb hi) lo), omega arith)

-- At a rate of at most 100% the rounded fees are exact: down and up to the next whole unit.
pub fee_floor-IsFloor :
    (a bps : ℕ) → a < 2 ^ 64 → bps ≤ 10_000 → IsFloor (fee_floor a bps) (a * bps) 10_000
unfolding fee_floor
fee_floor-IsFloor a bps ha hb =
    let e = mul_u128-eq_mul a bps ha (omega arith) in
    let le : a * bps ≤ a * 10_000 = grind arith in omega arith

pub fee_ceil_bounds :
    (a bps : ℕ)
    → a < 2 ^ 64
    → bps ≤ 10_000
    → (a * bps ≤ fee_ceil a bps * 10_000) × (fee_ceil a bps * 10_000 < a * bps + 10_000)
unfolding fee_ceil
fee_ceil_bounds a bps ha hb =
    let e = mul_u128-eq_mul a bps ha (omega arith) in
    let le : a * bps ≤ a * 10_000 = grind arith in ground arith

-- For a `u64` amount and a tolerance of at most 100%, `slippage_down` does not wrap and is the part
-- `10000 - bps` of the amount rounded up: never above the amount, never below what was tolerated.
pub slippage_down_bounds :
    (x bps : ℕ)
    → x < 2 ^ 64
    → bps ≤ 10_000
    → let least = slippage_down x bps in
      (least ≤ x)
      × (x * (10_000 - bps) ≤ least * 10_000)
      × (least * 10_000 < x * (10_000 - bps) + 10_000)
unfolding slippage_down
slippage_down_bounds x bps hx hb =
    let e = mul_u128-eq_mul x bps hx (omega arith) in
    let le : x * bps ≤ x * 10_000 = grind arith in
    let whole : 10_000 ≡ (10_000 - bps) + bps = omega arith in
    omega (arith, ap (λ (t : ℕ). x * t) whole)

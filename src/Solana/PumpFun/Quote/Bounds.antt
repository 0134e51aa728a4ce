-- ===== src/Solana/PumpFun/Quote/Bounds.antt =====
-- What a Pump.fun quote promises.
use native.Mathlib.Nat.{mul-le-mul_left}
use trading_aggregators.Prelude.{ℕ, ◌+◌, ◌-◌, ◌*◌, ◌/◌, ◌%◌, ◌^◌, ◌≤◌, ◌<◌, ◌≡◌, refl, arith, min}
use trading_aggregators.Prelude.Words.{as_u64, add_u128, mul_u128, mul_u128-eq_mul}
use trading_aggregators.Solana.Types.{buy, sell}
use trading_aggregators.Solana.Common.{base_out_for_quote_in, quote_out_for_base_in, fee_ceil}
use trading_aggregators.Solana.Common.Bounds.{
  IsFloor, IsFloor-div, fee_ceil_bounds, slippage_down_bounds, base_out_for_quote_in-le,
  quote_out_for_base_in-le,
}
use trading_aggregators.Solana.PumpFun.Quote.{
  FeeSettings, Curve, charged_creator_bps, sol_into_curve, sell_fee, compute_quote,
}

-- The reserves are `u64` and the two rates together are below 100%.
pub record IsSound (curve : Curve) (fees : FeeSettings) : Type 0 where
  pub base_fits : curve.base_reserves < 2 ^ 64
  pub quote_fits : curve.quote_reserves < 2 ^ 64
  pub real_fits : curve.real_token_reserves < 2 ^ 64
  pub rates : fees.protocol_bps + fees.creator_bps < 10_000

charged_creator_bps-le :
    (curve : Curve) (fees : FeeSettings) → charged_creator_bps curve fees ≤ fees.creator_bps
charged_creator_bps-le curve fees = ground arith

IsFloor-le : (x n t : ℕ) → IsFloor x (n * 10_000) (t + 10_000) → x ≤ n
IsFloor-le x n t h = grind arith

-- Division of an amount by one plus a rate, with its casts.
net_of_rate :
    (n t : ℕ)
    → n < 2 ^ 64
    → t ≤ 10_000
    → IsFloor (as_u64 (mul_u128 n 10_000 / add_u128 (t % 2 ^ 64) 10_000)) (n * 10_000) (t + 10_000)
net_of_rate n t hn ht =
    let exact = mul_u128-eq_mul n 10_000 hn (omega arith) in
    let floor = IsFloor-div (n * 10_000) (t + 10_000) (omega arith) in
    let le = IsFloor-le _ n t floor in
    let denominator : add_u128 (t % 2 ^ 64) 10_000 ≡ t + 10_000 = omega arith in
    let fits : as_u64 (n * 10_000 / (t + 10_000)) ≡ n * 10_000 / (t + 10_000) = omega arith in
    rw (exact, denominator, fits) floor

abbrev total_bps : Curve → FeeSettings → ℕ
total_bps curve fees = fees.protocol_bps + charged_creator_bps curve fees

sol_into_curve-IsFloor :
    (curve : Curve) (fees : FeeSettings) (amount : ℕ)
    → IsSound curve fees
    → amount < 2 ^ 64
    → IsFloor
        (sol_into_curve curve fees amount)
        ((amount - 1) * 10_000)
        (total_bps curve fees + 10_000)
unfolding sol_into_curve
sol_into_curve-IsFloor curve fees amount s h =
    let small = charged_creator_bps-le curve fees in
    let rates = s.rates in
    net_of_rate (amount - 1) (total_bps curve fees) (omega arith) (omega arith)

-- What reaches the curve, and both fees on it rounded up, are covered by the amount.
covered :
    (x n p c f g : ℕ)
    → IsFloor x (n * 10_000) (p + c + 10_000)
    → f * 10_000 < x * p + 10_000
    → g * 10_000 < x * c + 10_000
    → x + f + g ≤ n + 1
covered x n p c f g h hf hg = omega arith

-- A buy of at least one lamport, on `u64` reserves with rates below 100% together: the part
-- that goes into the curve plus the protocol fee and the creator fee on it, each rounded up, is at
-- most the amount, so the wallet never pays more than it asked to spend; the quote reports the rest
-- as its fee, and its output is within the curve's real reserves and at least its own minimum.
pub compute_quote_buy_covered :
    (curve : Curve) (fees : FeeSettings) (amount slippage : ℕ)
    → IsSound curve fees
    → 0 < amount
    → amount < 2 ^ 64
    → slippage ≤ 10_000
    → let q = compute_quote curve fees buy amount slippage in
      let into = sol_into_curve curve fees amount in
      (into + fee_ceil into fees.protocol_bps + fee_ceil into (charged_creator_bps curve fees)
        ≤ amount)
      × (into + q.fee ≡ amount)
      × (q.expected_out ≤ curve.real_token_reserves)
      × (q.expected_out ≤ curve.base_reserves)
      × (q.min_out ≤ q.expected_out)
unfolding compute_quote
compute_quote_buy_covered curve fees amount slippage s pos h hs =
    let rates = s.rates in
    let small = charged_creator_bps-le curve fees in
    let into = sol_into_curve curve fees amount in
    let floor = sol_into_curve-IsFloor curve fees amount s h in
    let le = IsFloor-le into (amount - 1) (total_bps curve fees) floor in
    let protocol = fee_ceil_bounds into fees.protocol_bps (omega arith) (omega arith) in
    let creator =
      fee_ceil_bounds into (charged_creator_bps curve fees) (omega arith) (omega arith) in
    let cover = covered into (amount - 1) _ _ _ _ floor protocol.1 creator.1 in
    let output =
      base_out_for_quote_in-le curve.quote_reserves curve.base_reserves into s.quote_fits
        s.base_fits (omega arith) in
    let reals = s.real_fits in
    let expected =
      min (base_out_for_quote_in curve.quote_reserves curve.base_reserves into)
        curve.real_token_reserves in
    let slipped = slippage_down_bounds expected slippage (omega arith) hs in
    (omega arith, omega arith, omega arith, omega arith, slipped.0)

ceil_sum_le :
    (gross p c f g : ℕ)
    → p + c < 10_000
    → f * 10_000 < gross * p + 10_000
    → g * 10_000 < gross * c + 10_000
    → (f + g) * 10_000 ≤ gross * 9_999 + 19_998
ceil_sum_le gross p c f g h hf hg =
    let le : gross * (p + c) ≤ gross * 9_999 = mul-le-mul_left gross (omega arith) in omega arith

fee_ceil_zero : (gross : ℕ) → gross < 2 ^ 64 → fee_ceil gross 0 ≡ 0
fee_ceil_zero gross h = omega (arith, fee_ceil_bounds gross 0 h (omega arith))

sell_fee-eq :
    (curve : Curve) (fees : FeeSettings) (gross : ℕ)
    → IsSound curve fees
    → gross < 2 ^ 64
    → (sell_fee curve fees gross
        ≡ fee_ceil gross fees.protocol_bps + fee_ceil gross (charged_creator_bps curve fees))
      × (sell_fee curve fees gross ≤ gross + 1)
unfolding sell_fee
sell_fee-eq curve fees gross s h =
    let rates = s.rates in
    let small = charged_creator_bps-le curve fees in
    let protocol = fee_ceil_bounds gross fees.protocol_bps h (omega arith) in
    let creator = fee_ceil_bounds gross (charged_creator_bps curve fees) h (omega arith) in
    let both = ceil_sum_le gross _ _ _ _ (omega arith) protocol.1 creator.1 in
    ground (arith, fee_ceil_zero gross h)

-- A sale on `u64` reserves with rates below 100% together: the fee is the sum of both fees rounded
-- up, with no overflow, and exceeds what the curve pays out by at most one lamport; the output is
-- what the curve pays out less the fee, the payout is within the curve's reserves, and the output
-- is at least its minimum.
pub compute_quote_sell_split :
    (curve : Curve) (fees : FeeSettings) (amount slippage : ℕ)
    → IsSound curve fees
    → amount < 2 ^ 64
    → slippage ≤ 10_000
    → let q = compute_quote curve fees sell amount slippage in
      let gross = quote_out_for_base_in curve.quote_reserves curve.base_reserves amount in
      (q.fee ≡ fee_ceil gross fees.protocol_bps + fee_ceil gross (charged_creator_bps curve fees))
      × (q.fee ≤ gross + 1)
      × (q.expected_out ≡ gross - q.fee)
      × (gross ≤ curve.quote_reserves)
      × (q.min_out ≤ q.expected_out)
unfolding compute_quote
compute_quote_sell_split curve fees amount slippage s h hs =
    let gross = quote_out_for_base_in curve.quote_reserves curve.base_reserves amount in
    let top =
      quote_out_for_base_in-le curve.quote_reserves curve.base_reserves amount s.quote_fits
        s.base_fits h in
    let fits = s.quote_fits in
    let (e, le) = sell_fee-eq curve fees gross s (omega arith) in
    let slipped =
      slippage_down_bounds (gross - sell_fee curve fees gross) slippage (omega arith) hs in
    (e, le, refl, top, slipped.0)

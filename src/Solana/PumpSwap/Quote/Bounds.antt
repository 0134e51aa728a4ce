-- ===== src/Solana/PumpSwap/Quote/Bounds.antt =====
-- What a PumpSwap quote promises.
use native.Mathlib.Nat.{mul-le-mul_left}
use trading_aggregators.Prelude.{ℕ, ◌+◌, ◌-◌, ◌*◌, ◌/◌, ◌^◌, ◌≤◌, ◌<◌, ◌≡◌, arith}
use trading_aggregators.Prelude.Words.{as_u64, add_u64, add_u128, mul_u128, mul_u128-eq_mul}
use trading_aggregators.Solana.Types.{buy, sell}
use trading_aggregators.Solana.Common.{base_out_for_quote_in, quote_out_for_base_in, fee_floor}
use trading_aggregators.Solana.Common.Bounds.{
  IsFloor, IsFloor-div, fee_floor-IsFloor, slippage_down_bounds, base_out_for_quote_in-le,
  quote_out_for_base_in-le,
}
use trading_aggregators.Solana.PumpSwap.Quote.{
  FeeSettings, PoolState, charged_creator_bps, fees_on, uncorrected, quote_into_pool, compute_quote,
}

-- The reserves are `u64` and the three rates together are at most 100%.
pub record IsSound (pool : PoolState) (fees : FeeSettings) : Type 0 where
  pub base_fits : pool.base_reserves < 2 ^ 64
  pub quote_fits : pool.quote_reserves < 2 ^ 64
  pub rates : fees.lp_bps + fees.protocol_bps + fees.creator_bps ≤ 10_000

charged_creator_bps-le :
    (pool : PoolState) (fees : FeeSettings) → charged_creator_bps pool fees ≤ fees.creator_bps
charged_creator_bps-le pool fees = ground arith

abbrev pub total_bps : PoolState → FeeSettings → ℕ
total_bps pool fees = fees.lp_bps + fees.protocol_bps + charged_creator_bps pool fees

-- The exact sum of the three fees.
abbrev pub three_fees : PoolState → FeeSettings → ℕ → ℕ
three_fees pool fees x =
    fee_floor x fees.lp_bps
    + fee_floor x fees.protocol_bps
    + fee_floor x (charged_creator_bps pool fees)

-- Three fees at rates of at most 100% together take at most the total rate.
floor_sum_le :
    (x a b c f g h : ℕ)
    → f * 10_000 ≤ x * a
    → g * 10_000 ≤ x * b
    → h * 10_000 ≤ x * c
    → (f + g + h) * 10_000 ≤ x * (a + b + c)
floor_sum_le x a b c f g h hf hg hh = omega arith

fees_on-eq :
    (pool : PoolState) (fees : FeeSettings) (x : ℕ)
    → IsSound pool fees
    → x < 2 ^ 64
    → (fees_on pool fees x ≡ three_fees pool fees x)
      × (fees_on pool fees x * 10_000 ≤ x * total_bps pool fees)
      × (fees_on pool fees x ≤ x)
unfolding fees_on
fees_on-eq pool fees x s h =
    let rates = s.rates in
    let small = charged_creator_bps-le pool fees in
    let lp = fee_floor-IsFloor x fees.lp_bps h (omega arith) in
    let protocol = fee_floor-IsFloor x fees.protocol_bps h (omega arith) in
    let creator = fee_floor-IsFloor x (charged_creator_bps pool fees) h (omega arith) in
    let sum = floor_sum_le x _ _ _ _ _ _ lp.0 protocol.0 creator.0 in
    let top : x * total_bps pool fees ≤ x * 10_000 = mul-le-mul_left x (omega arith) in
    (omega arith, omega arith, omega arith)

IsFloor-le : (x n t : ℕ) → IsFloor x (n * 10_000) (10_000 + t) → x ≤ n
IsFloor-le x n t h = grind arith

net_of_rate :
    (n t : ℕ)
    → n < 2 ^ 64
    → t ≤ 10_000
    → IsFloor (as_u64 (mul_u128 n 10_000 / add_u128 10_000 t)) (n * 10_000) (10_000 + t)
net_of_rate n t hn ht =
    let exact = mul_u128-eq_mul n 10_000 hn (omega arith) in
    let floor = IsFloor-div (n * 10_000) (10_000 + t) (omega arith) in
    let le = IsFloor-le _ n t floor in
    let denominator : add_u128 10_000 t ≡ 10_000 + t = omega arith in
    let fits : as_u64 (n * 10_000 / (10_000 + t)) ≡ n * 10_000 / (10_000 + t) = omega arith in
    rw (exact, denominator, fits) floor

uncorrected-IsFloor :
    (pool : PoolState) (fees : FeeSettings) (amount : ℕ)
    → IsSound pool fees
    → amount < 2 ^ 64
    → IsFloor (uncorrected pool fees amount) (amount * 10_000) (10_000 + total_bps pool fees)
unfolding uncorrected
uncorrected-IsFloor pool fees amount s h =
    let small = charged_creator_bps-le pool fees in
    let rates = s.rates in
    let sum : add_u64 (add_u64 fees.lp_bps fees.protocol_bps) (charged_creator_bps pool fees)
        ≡ total_bps pool fees =
      omega arith in
    rw sum (net_of_rate amount (total_bps pool fees) h (omega arith))

covered : (x n t f : ℕ) → IsFloor x (n * 10_000) (10_000 + t) → f * 10_000 ≤ x * t → x + f ≤ n
covered x n t f h hf = omega arith

-- On `u64` reserves with rates of at most 100% together the correction of a buy never applies: the
-- division already leaves room for the fees.
pub quote_into_pool-uncorrected :
    (pool : PoolState) (fees : FeeSettings) (amount : ℕ)
    → IsSound pool fees
    → amount < 2 ^ 64
    → (quote_into_pool pool fees amount ≡ uncorrected pool fees amount)
      × (quote_into_pool pool fees amount + three_fees pool fees (quote_into_pool pool fees amount)
          ≤ amount)
unfolding quote_into_pool
quote_into_pool-uncorrected pool fees amount s h =
    let into = uncorrected pool fees amount in
    let floor = uncorrected-IsFloor pool fees amount s h in
    let le = IsFloor-le into amount (total_bps pool fees) floor in
    let (e, sum, fits) = fees_on-eq pool fees into s (omega arith) in
    let cover = covered into amount _ _ floor sum in ground arith

-- A buy on `u64` reserves with rates of at most 100% together: what goes into the pool plus the
-- three fees on it is at most the amount, the quote reports the rest as its fee, and the output is
-- within the pool's reserves and at least its own minimum.
pub pool_quote_buy_covered :
    (pool : PoolState) (fees : FeeSettings) (amount slippage : ℕ)
    → IsSound pool fees
    → amount < 2 ^ 64
    → slippage ≤ 10_000
    → let q = compute_quote pool fees buy amount slippage in
      let into = quote_into_pool pool fees amount in
      (into + three_fees pool fees into ≤ amount)
      × (into + q.fee ≡ amount)
      × (q.expected_out ≤ pool.base_reserves)
      × (q.min_out ≤ q.expected_out)
unfolding compute_quote
pool_quote_buy_covered pool fees amount slippage s h hs =
    let into = quote_into_pool pool fees amount in
    let cover = (quote_into_pool-uncorrected pool fees amount s h).1 in
    let fits = s.base_fits in
    let output =
      base_out_for_quote_in-le pool.quote_reserves pool.base_reserves (into - 1) s.quote_fits
        s.base_fits (omega arith) in
    let slipped =
      slippage_down_bounds (base_out_for_quote_in pool.quote_reserves pool.base_reserves (into - 1))
        slippage (omega arith) hs in
    (cover, omega arith, output, slipped.0)

-- A sale on `u64` reserves with rates of at most 100% together: the fee is the exact sum of the
-- three fees, what the pool pays out is split exactly into fee and output and lies within its
-- reserves, and the output is at least its minimum.
pub pool_quote_sell_split :
    (pool : PoolState) (fees : FeeSettings) (amount slippage : ℕ)
    → IsSound pool fees
    → amount < 2 ^ 64
    → slippage ≤ 10_000
    → let q = compute_quote pool fees sell amount slippage in
      let gross = quote_out_for_base_in pool.quote_reserves pool.base_reserves amount in
      (q.fee ≡ three_fees pool fees gross)
      × (q.expected_out + q.fee ≡ gross)
      × (gross ≤ pool.quote_reserves)
      × (q.min_out ≤ q.expected_out)
unfolding compute_quote
pool_quote_sell_split pool fees amount slippage s h hs =
    let gross = quote_out_for_base_in pool.quote_reserves pool.base_reserves amount in
    let top =
      quote_out_for_base_in-le pool.quote_reserves pool.base_reserves amount s.quote_fits
        s.base_fits h in
    let fits = s.quote_fits in
    let (e, sum, le) = fees_on-eq pool fees gross s (omega arith) in
    let slipped =
      slippage_down_bounds (gross - fees_on pool fees gross) slippage (omega arith) hs in
    (e, omega arith, top, slipped.0)

-- ===== src/Solana/PumpSwap/Quote.antt =====
-- Quotes on a PumpSwap pool.
mod Tests
pub mod Bounds
use trading_aggregators.Prelude.{
  ℕ, ◌+◌, ◌-◌, ◌*◌, ◌/◌, ◌^◌, Bool, true, false, not, none, ◌==◌, ltb, if◌then◌else◌,
}
use trading_aggregators.Prelude.Words.{as_u64, add_u64, sub_u64, add_u128, mul_u128}
use trading_aggregators.Solana.Keys.{Pubkey, default_key}
use trading_aggregators.Solana.Types.{Side, buy, sell, Quote}
use trading_aggregators.Solana.Common.{
  base_out_for_quote_in, quote_out_for_base_in, fee_floor, slippage_down,
}

pub record FeeSettings : Type 0 where
  pub standard_protocol_recipient : Pubkey
  pub mayhem_protocol_recipient : Pubkey
  pub buyback_recipient : Pubkey
  pub lp_bps : ℕ
  pub protocol_bps : ℕ
  pub creator_bps : ℕ

-- `FeeSettings::protocol_recipient`
pub protocol_recipient : FeeSettings → Bool → Pubkey
protocol_recipient fees is_mayhem =
    if is_mayhem then fees.mayhem_protocol_recipient else fees.standard_protocol_recipient

pub record PoolState : Type 0 where
  pub coin_creator : Pubkey
  pub base_mint : Pubkey
  pub quote_mint : Pubkey
  pub base_vault : Pubkey
  pub quote_vault : Pubkey
  pub base_reserves : ℕ
  pub quote_reserves : ℕ
  pub is_mayhem : Bool
  pub is_cashback : Bool
  pub base_token_program : Pubkey
  pub quote_token_program : Pubkey

-- The creator's rate, which only a pool with a coin creator charges.
abbrev pub charged_creator_bps : PoolState → FeeSettings → ℕ
charged_creator_bps pool fees =
    if not (pool.coin_creator == default_key) then fees.creator_bps else 0

-- The three fees on an amount, each rounded down.
pub fees_on : PoolState → FeeSettings → ℕ → ℕ
fees_on pool fees amount =
    add_u64 (add_u64 (fee_floor amount fees.lp_bps) (fee_floor amount fees.protocol_bps))
      (fee_floor amount (charged_creator_bps pool fees))

-- The part of a buy's amount before the correction for its fees.
pub uncorrected : PoolState → FeeSettings → ℕ → ℕ
uncorrected pool fees amount = as_u64 (
    mul_u128 amount 10_000
    / add_u128 10_000
        (add_u64 (add_u64 fees.lp_bps fees.protocol_bps) (charged_creator_bps pool fees)))

-- The correction: what amount and fees exceed is taken off.
pub corrected : ℕ → ℕ → ℕ → ℕ
corrected into fee amount =
    if ltb amount (add_u64 into fee) then into - sub_u64 (add_u64 into fee) amount else into

pub quote_into_pool : PoolState → FeeSettings → ℕ → ℕ
unfolding uncorrected corrected fees_on
quote_into_pool pool fees amount =
    let into = uncorrected pool fees amount in corrected into (fees_on pool fees into) amount

pub compute_quote : PoolState → FeeSettings → Side → ℕ → ℕ → Quote
compute_quote pool fees buy amount slippage_bps =
    let into = quote_into_pool pool fees amount in
    let expected = base_out_for_quote_in pool.quote_reserves pool.base_reserves (into - 1) in
    record {
      in_amount = amount;
      usd_value = none;
      application_fee = 0;
      sponsorship_fee = 0;
      expected_out = expected;
      min_out = slippage_down expected slippage_bps;
      fee = amount - into;
    }
compute_quote pool fees sell amount slippage_bps =
    let gross = quote_out_for_base_in pool.quote_reserves pool.base_reserves amount in
    let fee = fees_on pool fees gross in
    let expected = gross - fee in
    record {
      in_amount = amount;
      usd_value = none;
      application_fee = 0;
      sponsorship_fee = 0;
      expected_out = expected;
      min_out = slippage_down expected slippage_bps;
      fee = fee;
    }

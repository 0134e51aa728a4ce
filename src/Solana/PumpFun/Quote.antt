-- ===== src/Solana/PumpFun/Quote.antt =====
-- Quotes on a Pump.fun bonding curve.
mod Tests
pub mod Bounds
use trading_aggregators.Prelude.{
  ℕ, ◌+◌, ◌-◌, ◌*◌, ◌/◌, ◌^◌, Bool, true, false, not, none, ◌==◌, min, if◌then◌else◌,
}
use trading_aggregators.Prelude.Words.{as_u64, add_u64, add_u128, mul_u128}
use trading_aggregators.Solana.Keys.{Pubkey, default_key}
use trading_aggregators.Solana.Types.{Side, buy, sell, Quote}
use trading_aggregators.Solana.Common.{
  base_out_for_quote_in, quote_out_for_base_in, fee_ceil, slippage_down,
}

pub record FeeSettings : Type 0 where
  pub standard_recipient : Pubkey
  pub mayhem_recipient : Pubkey
  pub buyback_recipient : Pubkey
  pub protocol_bps : ℕ
  pub creator_bps : ℕ

-- `FeeSettings::recipient`
pub recipient : FeeSettings → Bool → Pubkey
recipient fees is_mayhem = if is_mayhem then fees.mayhem_recipient else fees.standard_recipient

pub record Curve : Type 0 where
  pub creator : Pubkey
  pub base_reserves : ℕ
  pub quote_reserves : ℕ
  pub real_token_reserves : ℕ
  pub is_mayhem : Bool
  pub is_cashback : Bool
  pub token_program : Pubkey

-- The creator's rate, which only a curve with a creator charges.
abbrev pub charged_creator_bps : Curve → FeeSettings → ℕ
charged_creator_bps curve fees = if not (curve.creator == default_key) then fees.creator_bps else 0

-- The part of a buy's amount that reaches the curve.
pub sol_into_curve : Curve → FeeSettings → ℕ → ℕ
sol_into_curve curve fees amount = as_u64 (
    mul_u128 (amount - 1) 10_000
    / add_u128 (add_u64 fees.protocol_bps (charged_creator_bps curve fees)) 10_000)

pub sell_fee : Curve → FeeSettings → ℕ → ℕ
sell_fee curve fees gross =
    add_u64 (fee_ceil gross fees.protocol_bps)
      (if not (curve.creator == default_key) then fee_ceil gross fees.creator_bps else 0)

pub compute_quote : Curve → FeeSettings → Side → ℕ → ℕ → Quote
compute_quote curve fees buy amount slippage_bps =
    let into = sol_into_curve curve fees amount in
    let curve_output = base_out_for_quote_in curve.quote_reserves curve.base_reserves into in
    let expected = min curve_output curve.real_token_reserves in
    record {
      in_amount = amount;
      usd_value = none;
      application_fee = 0;
      sponsorship_fee = 0;
      expected_out = expected;
      min_out = slippage_down expected slippage_bps;
      fee = amount - into;
    }
compute_quote curve fees sell amount slippage_bps =
    let gross = quote_out_for_base_in curve.quote_reserves curve.base_reserves amount in
    let fee = sell_fee curve fees gross in
    let expected = gross - fee in
    record {
      in_amount = amount;
      usd_value = none;
      application_fee = 0;
      sponsorship_fee = 0;
      expected_out = expected;
      min_out = slippage_down expected slippage_bps;
      fee = fee;
    }

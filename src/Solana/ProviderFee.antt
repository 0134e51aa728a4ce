-- ===== src/Solana/ProviderFee.antt =====
-- `src/solana/provider_fee.rs`: fees that the quote provider collects.
mod Tests
pub mod Amounts
use trading_aggregators.Prelude.{
  ℕ, ◌/◌, String, Bool, true, false, not, ◌||◌, Option, none, some, ◌==◌, if◌then◌else◌,
}
use trading_aggregators.Prelude.Words.{as_u64, mul_u128, checked_add_u64}
use trading_aggregators.Error.{TradeError, build, Result, ok, err, ok_or, raise_if, ◌>>=◌, ◌>>◌}
use trading_aggregators.Solana.Keys.{Pubkey, Instruction, token_program}
use trading_aggregators.Solana.Types.{basis_points, Side, buy, sell, settlement_mint, Trade, Quote}
use trading_aggregators.Solana.Common.{Platform, ata, create_ata_idempotent}
use trading_aggregators.Solana.SdkFee.{SdkFee, trade_after_fee}

pub record ProviderFee : Type 0 where
  pub fee : SdkFee
  pub mint : Pubkey
  pub side : Side

-- `ProviderFee::new`
unfoldable pub new : SdkFee → Trade → Result TradeError ProviderFee
new fee t = do
  trade_after_fee fee t
  ok (record { fee = fee; side = t.side; mint = settlement_mint t.settlement })

pub account : ⦃p : Platform⦄ → ProviderFee → Pubkey
account f = ata f.fee.recipient f.mint token_program

mode_of : Side → String
mode_of buy = "inputMint"
mode_of sell = "outputMint"

pub mode : ProviderFee → String
unfolding mode_of
mode f = mode_of f.side

pub setup : ⦃p : Platform⦄ → ProviderFee → Pubkey → Instruction
setup f payer = create_ata_idempotent payer f.fee.recipient f.mint token_program

-- The amount that the rate applies to: a sale's output before the fee.
fee_basis : Side → Quote → ℕ → Result TradeError ℕ
fee_basis buy q charged = ok q.in_amount
fee_basis sell q charged =
    ok_or (checked_add_u64 q.expected_out charged) (build "provider fee amount overflow")

pub validate_amount : ProviderFee → Quote → ℕ → ℕ → Result TradeError (Unit {0})
unfolding fee_basis
validate_amount f q charged bps = do
  basis ← fee_basis f.side q charged
  let expected = as_u64 (mul_u128 basis f.fee.bps / basis_points)
  raise_if (not (bps == f.fee.bps) || not (charged == expected))
      (build "provider fee does not match the requested settlement fee")

-- ===== src/Solana/GasSponsor/Tests.antt =====
-- A sponsored purchase and a sponsored sale.
use trading_aggregators.Prelude.{ℕ, ◌+◌, ◌≤◌, ◌<◌, ◌≡◌, ◌≢◌, refl, none, [], ◌∷◌, if◌then◌else◌}
use trading_aggregators.Solana.Keys.{token_program, usdc_mint}
use trading_aggregators.Solana.Types.{
  Side, buy, sell, is_buy, usdc, Trade, PreparedSwap, TransactionFormat,
}
use trading_aggregators.Solana.Samples.{sample_platform, checked_transfer}
use trading_aggregators.Solana.SdkFee.{append_usdc_fee}
use trading_aggregators.Solana.SdkFee.Transfers.{IsUsdcPayment}
use trading_aggregators.Solana.Common.{ata, create_ata_idempotent}
use trading_aggregators.Solana.GasSponsor.{
  GasSponsor, subtract_fee, reserve_fee, outputs_after, apply_to_swap,
}
use trading_aggregators.Solana.GasSponsor.Charges.{reserve_fee_split, apply_to_swap_split}

abbrev a_sponsor : GasSponsor
a_sponsor = record {
  wallet = 10;
  fee_recipient = 10;
  cost_policy = record {
    max_cost_lamports = 10_000_000;
    max_fee_usdc = 3_000_000;
    service_fee_usdc = 1_000_000;
  };
}

abbrev usdc_trade : Side → ℕ → Trade
usdc_trade side amount = record {
  settlement = usdc;
  wallet = 11;
  mint = 12;
  side = side;
  amount = amount;
  slippage_bps = 100;
  venue = none;
  pool = none;
  quote_source = none;
}

abbrev sale : PreparedSwap
sale = record {
  venue = "relay";
  quote = record {
    in_amount = 700;
    usd_value = none;
    expected_out = 9_000_000;
    min_out = 8_000_000;
    fee = 0;
    application_fee = 0;
    sponsorship_fee = 0;
  };
  instructions = record { program_id = 40; accounts = []; bytes = [] } ∷ [];
  lookup_tables = [];
  format = TransactionFormat.v0;
}

reserve_fee_split_example :
    ((usdc_trade buy 10_000_000).settlement ≡ usdc)
    × ((usdc_trade buy 10_000_000).wallet ≢ a_sponsor.wallet)
    × ((usdc_trade buy 10_000_000).wallet ≢ a_sponsor.fee_recipient)
    × ((usdc_trade buy 7_000_000).amount
          + (if is_buy (usdc_trade buy 10_000_000).side
              then a_sponsor.cost_policy.max_fee_usdc
              else 0)
        ≡ (usdc_trade buy 10_000_000).amount)
    × ((if is_buy (usdc_trade buy 10_000_000).side then 1 else 0)
        ≤ (usdc_trade buy 7_000_000).amount)
    × ((usdc_trade buy 7_000_000)
        ≡ record (usdc_trade buy 10_000_000) { amount = (usdc_trade buy 7_000_000).amount })
unfolding reserve_fee subtract_fee
reserve_fee_split_example = reserve_fee_split a_sponsor (usdc_trade buy 10_000_000) refl

abbrev sponsored_sale : PreparedSwap
sponsored_sale = record sale {
  quote = record (sale.quote) {
    expected_out = 6_000_000;
    min_out = 5_000_000;
    sponsorship_fee = 3_000_000;
  };
  instructions =
      record { program_id = 40; accounts = []; bytes = [] }
      ∷ create_ata_idempotent 10 10 usdc_mint token_program
      ∷ checked_transfer token_program (ata 11 usdc_mint token_program) usdc_mint
          (ata 10 usdc_mint token_program) 11 3_000_000 6
      ∷ [];
}

apply_to_swap_split_example :
    let taken =
      if is_buy (usdc_trade sell 700).side then 0 else a_sponsor.cost_policy.max_fee_usdc in
    (sponsored_sale.quote.in_amount ≡ (usdc_trade sell 700).amount)
    × (sponsored_sale.quote.sponsorship_fee ≡ a_sponsor.cost_policy.max_fee_usdc)
    × (sponsored_sale.quote.expected_out + taken ≡ sale.quote.expected_out)
    × (sponsored_sale.quote.min_out + taken ≡ sale.quote.min_out)
    × (0 < sale.quote.min_out → 0 < sponsored_sale.quote.min_out)
    × ((if is_buy (usdc_trade sell 700).side then 0 else 1) ≤ sponsored_sale.quote.min_out)
    × ((if is_buy (usdc_trade sell 700).side then 0 else 1) ≤ sponsored_sale.quote.expected_out)
    × (sponsored_sale.quote.application_fee ≡ sale.quote.application_fee)
    × IsUsdcPayment sale.instructions sponsored_sale.instructions a_sponsor.wallet
        (usdc_trade sell 700).wallet
        a_sponsor.fee_recipient
        a_sponsor.cost_policy.max_fee_usdc
unfolding apply_to_swap outputs_after subtract_fee append_usdc_fee
apply_to_swap_split_example = apply_to_swap_split a_sponsor (usdc_trade sell 700) sale refl

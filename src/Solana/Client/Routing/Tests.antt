-- ===== src/Solana/Client/Routing/Tests.antt =====
-- A sponsored purchase with a 1% fee, from the routed trade to the charged swap.
use trading_aggregators.Prelude.{ℕ, refl, false, none, some, [], ◌∷◌, arith}
use trading_aggregators.Prelude.Words.{mul_u128}
use trading_aggregators.Solana.Keys.{token_program, usdc_mint}
use trading_aggregators.Solana.Types.{
  Side, buy, usdc, Trade, validate, Quote, PreparedSwap, TransactionFormat,
}
use trading_aggregators.Solana.Samples.{sample_platform, sample_floats, checked_transfer}
use trading_aggregators.Solana.SdkFee.{
  sdk, amount, trade_after_fee, append_usdc_fee, apply_with_payer, quote_after_fee, net_outputs,
  fee_basis, with_fee_transfer,
}
use trading_aggregators.Solana.Common.{ata, create_ata_idempotent}
use trading_aggregators.Solana.GasSponsor.{
  GasSponsor, subtract_fee, reserve_fee, outputs_after, apply_to_swap,
}
use trading_aggregators.Solana.Client.Routing.{
  Client, routed_trade, after_fee, reserved, accept_candidate, validate_candidate, append_fees,
  applied, sponsored,
}
use trading_aggregators.Solana.Client.Routing.Accounting.{IsAccounted, accept_candidate_accounts}

abbrev a_sponsor : GasSponsor
a_sponsor = record {
  wallet = 10;
  fee_recipient = 10;
  cost_policy = record {
    max_cost_lamports = 10_000_000;
    max_fee_usdc = 3_000_000;
    service_fee_usdc = 1_000_000;
  };
}

abbrev usdc_trade : Side → ℕ → Trade
usdc_trade side amount = record {
  settlement = usdc;
  wallet = 11;
  mint = 12;
  side = side;
  amount = amount;
  slippage_bps = 100;
  venue = none;
  pool = none;
  quote_source = none;
}

abbrev a_client : Client
a_client = record {
  quote_source = none;
  sdk_fee =
      some (record { recipient = 20; bps = 100; collection = sdk; relay_fee_recipient = none });
  gas_sponsor = some a_sponsor;
  usd_value_enabled = false;
  shared_lookup_tables = [];
}

abbrev candidate_quote : Quote
candidate_quote = record {
  in_amount = 6_900_000;
  usd_value = none;
  expected_out = 500;
  min_out = 490;
  fee = 0;
  application_fee = 0;
  sponsorship_fee = 0;
}

abbrev a_candidate : PreparedSwap
a_candidate = record {
  venue = "relay";
  quote = candidate_quote;
  instructions = record { program_id = 40; accounts = []; bytes = [] } ∷ [];
  lookup_tables = [];
  format = TransactionFormat.v0;
}

abbrev charged_candidate : PreparedSwap
charged_candidate = record a_candidate {
  quote = record candidate_quote {
    in_amount = 10_000_000;
    application_fee = 100_000;
    sponsorship_fee = 3_000_000;
  };
  instructions =
      record { program_id = 40; accounts = []; bytes = [] }
      ∷ create_ata_idempotent 10 20 usdc_mint token_program
      ∷ checked_transfer token_program (ata 11 usdc_mint token_program) usdc_mint
          (ata 20 usdc_mint token_program) 11 100_000 6
      ∷ create_ata_idempotent 10 10 usdc_mint token_program
      ∷ checked_transfer token_program (ata 11 usdc_mint token_program) usdc_mint
          (ata 10 usdc_mint token_program) 11 3_000_000 6
      ∷ [];
}

accept_candidate_accounts_example :
    IsAccounted a_client
      (usdc_trade buy 10_000_000)
      (usdc_trade buy 6_900_000)
      none
      a_candidate
      charged_candidate
unfolding routed_trade after_fee reserved trade_after_fee validate amount mul_u128 reserve_fee
    subtract_fee accept_candidate validate_candidate append_fees applied sponsored apply_with_payer
    quote_after_fee net_outputs fee_basis with_fee_transfer append_usdc_fee apply_to_swap
    outputs_after
accept_candidate_accounts_example =
    accept_candidate_accounts a_client (usdc_trade buy 10_000_000) (usdc_trade buy 6_900_000) none
      none a_candidate (record { rate = omega arith; recipient_set = omega arith }) (omega arith)
      (omega arith) refl refl

-- ===== src/Solana/Client/Swapping/Tests.antt =====
-- A client whose only source is a canned one.
use trading_aggregators.Prelude.{ℕ, ◌<◌, ◌≢◌, refl, false, none, some, arith, [], ◌∷◌}
use trading_aggregators.Error.{ok}
use trading_aggregators.Solana.Types.{
  TransactionFormat, buy, sol, Trade, PreparedSwap, validate, native_venue, settlement_mint,
}
use trading_aggregators.Solana.Samples.{
  sample_floats, sample_compiler, sample_chain, sample_platform, sample_reads, sample_borsh,
}
use trading_aggregators.Solana.Executor.Signing.{SwapSigners}
use trading_aggregators.Solana.Client.Routing.{
  Client, quote_source_for, provider_fee_of, routed_trade, after_fee, reserved, accept_candidate,
  validate_candidate, append_fees, applied, sponsored,
}
use trading_aggregators.Solana.Client.Swapping.{
  Adapters, bounded_route, prepare_route, unsponsored_or, prepare_routed, prepare_selected_swap,
}
use trading_aggregators.Solana.Client.Swapping.Outcome.{
  AreU64, IsPrepared, prepare_selected_swap-IsPrepared,
}

abbrev plain_trade : Trade
plain_trade = record {
  settlement = sol;
  wallet = 11;
  mint = 12;
  side = buy;
  amount = 1_000;
  slippage_bps = 100;
  venue = none;
  pool = none;
  quote_source = none;
}

abbrev canned_swap : PreparedSwap
canned_swap = record {
  venue = "relay";
  quote = record {
    in_amount = 1_000;
    usd_value = none;
    expected_out = 500;
    min_out = 490;
    fee = 0;
    application_fee = 0;
    sponsorship_fee = 0;
  };
  instructions = record { program_id = 40; accounts = []; bytes = 1 ∷ [] } ∷ [];
  lookup_tables = [];
  format = TransactionFormat.v0;
}

instance abbrev canned_adapters : Adapters ℕ
canned_adapters = record {
  name = λ source. "relay";
  prepare_swap = λ source t w. (ok canned_swap, w);
  prepare_sponsored_swap = λ source t payer w. (ok canned_swap, w);
  prepare_with_fee = λ source t payer fee w. (ok canned_swap, w);
  find_market = λ source mint w. (ok none, w);
  pool_prices = λ t source w. (none, w);
  timeout = λ limit preparation w. let (r, w') = preparation w in (ok r, w');
}

abbrev plain_client : Client
plain_client = record {
  quote_source = none;
  sdk_fee = none;
  gas_sponsor = none;
  usd_value_enabled = false;
  shared_lookup_tables = [];
}

abbrev plain_signers : SwapSigners ℕ
plain_signers = record {
  user = λ key tx w. (ok 55, w);
  sponsor = none;
  sponsor_signer = λ key tx w. (ok 56, w);
  price_feed = λ w. (ok (record { usdc_units_per_sol = 1; observed_at = 0 }), w);
}

canned_adapters-AreU64 : AreU64 canned_adapters
canned_adapters-AreU64 none source t none w w' candidate e = ground arith
canned_adapters-AreU64 none source t (some fee) w w' candidate e = ground arith
canned_adapters-AreU64 (some g) source t none w w' candidate e = ground arith
canned_adapters-AreU64 (some g) source t (some fee) w w' candidate e = ground arith

prepare_selected_swap-IsPrepared_example :
    (0 < plain_trade.amount)
    × (plain_trade.slippage_bps < 10_000)
    × (plain_trade.mint ≢ settlement_mint plain_trade.settlement)
    × IsPrepared {W = ℕ} plain_client plain_trade 0 canned_swap
unfolding prepare_selected_swap prepare_routed prepare_route unsponsored_or bounded_route validate
    provider_fee_of routed_trade after_fee reserved accept_candidate validate_candidate append_fees
    applied sponsored quote_source_for native_venue
prepare_selected_swap-IsPrepared_example =
    prepare_selected_swap-IsPrepared {W = ℕ} plain_client plain_trade 0 0 {final = canned_swap} tt
      (omega arith) canned_adapters-AreU64 refl

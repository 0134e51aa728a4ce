-- ===== src/Solana/Executor/Submitting/Tests.antt =====
-- A swap that pays for itself.
use trading_aggregators.Prelude.{ℕ, none, [], ◌∷◌}
use trading_aggregators.Error.{ok}
use trading_aggregators.Solana.Types.{TransactionFormat, buy, sol, Trade, PreparedSwap, SwapResult}
use trading_aggregators.Solana.Samples.{
  sample_floats, sample_compiler, sample_chain, sample_submitter,
}
use trading_aggregators.Solana.Executor.Budget.{
  take_budget, take_compute_unit_limit, limit_loop, is_compute_unit_limit,
}
use trading_aggregators.Solana.Executor.Signing.{
  SwapSigners, user_signer_index, sign_transaction, sponsor_sign,
}
use trading_aggregators.Solana.Executor.Build.{
  build_transaction, after_budget, simulate_units, simulated_message, compile_v0, compile_route,
  check_size, finish_transaction,
}
use trading_aggregators.Solana.Executor.Submitting.{
  submitted, settled, sign_and_submit, submit_swap,
}
use trading_aggregators.Solana.Executor.Submitting.Submitted.{
  IsSubmission, submit_swap-IsSubmission,
}

abbrev own_trade : Trade
own_trade = record {
  settlement = sol;
  wallet = 11;
  mint = 12;
  side = buy;
  amount = 1_000;
  slippage_bps = 100;
  venue = none;
  pool = none;
  quote_source = none;
}

abbrev own_swap : PreparedSwap
own_swap = record {
  venue = "relay";
  quote = record {
    in_amount = 1_000;
    usd_value = none;
    expected_out = 500;
    min_out = 490;
    fee = 0;
    application_fee = 10;
    sponsorship_fee = 0;
  };
  instructions = record { program_id = 40; accounts = []; bytes = 1 ∷ [] } ∷ [];
  lookup_tables = [];
  format = TransactionFormat.v0;
}

abbrev own_signers : SwapSigners ℕ
own_signers = record {
  user = λ key tx w. (ok 55, w);
  sponsor = none;
  sponsor_signer = λ key tx w. (ok 56, w);
  price_feed = λ w. (ok (record { usdc_units_per_sol = 1; observed_at = 0 }), w);
}

abbrev own_result : SwapResult
own_result = submitted own_swap 0 99

submit_swap-IsSubmission_example :
    IsSubmission {W = ℕ} own_swap own_signers sample_submitter own_trade 5_000 [] 0
      (ok own_result, 0)
unfolding submit_swap sign_and_submit settled user_signer_index sign_transaction sponsor_sign
    build_transaction after_budget take_budget take_compute_unit_limit limit_loop
    is_compute_unit_limit simulate_units simulated_message compile_v0 compile_route check_size
    finish_transaction
submit_swap-IsSubmission_example =
    submit_swap-IsSubmission {W = ℕ} own_swap own_signers sample_submitter own_trade 5_000 [] 0

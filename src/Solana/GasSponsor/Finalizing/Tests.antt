-- ===== src/Solana/GasSponsor/Finalizing/Tests.antt =====
-- A fee finalized for a transaction that reserves 3 USDC.
use trading_aggregators.Prelude.{ℕ, [], ◌∷◌}
use trading_aggregators.Error.{ok}
use trading_aggregators.Solana.Transaction.{Transaction, CompiledInstruction, MessageVersion}
use trading_aggregators.Solana.Samples.{sample_chain}
use trading_aggregators.Solana.Chain.{PriceFeed}
use trading_aggregators.Solana.GasSponsor.Cost.{SponsorCostPolicy, with_amount, transfer_bytes}

abbrev cost_policy : SponsorCostPolicy
cost_policy = record {
  max_cost_lamports = 10_000_000;
  max_fee_usdc = 3_000_000;
  service_fee_usdc = 1_000_000;
}

abbrev steady_feed : PriceFeed ℕ
steady_feed w = (ok (record { usdc_units_per_sol = 150_000_000; observed_at = 0 }), w)

abbrev usdc_transfer : CompiledInstruction
usdc_transfer = record { program_id_index = 3; accounts = []; bytes = transfer_bytes 3_000_000 }

abbrev unsettled : Transaction
unsettled = record {
  signatures = 0 ∷ [];
  message = record {
    version = MessageVersion.v0;
    num_required_signatures = 1;
    static_account_keys = 10 ∷ [];
    instructions = usdc_transfer ∷ [];
    recent_blockhash = 7;
  };
}

abbrev final_transaction : Transaction
final_transaction = with_amount unsettled 0 usdc_transfer 1_000_750

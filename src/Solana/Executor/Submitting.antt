-- ===== src/Solana/Executor/Submitting.antt =====
-- `submit_swap` of `src/solana/executor.rs`: build, check the signers, settle the sponsor's cost, sign
-- and submit.
mod Tests
pub mod Submitted
use trading_aggregators.Prelude.{ℕ, String, Option, none, some, List}
use trading_aggregators.Error.{TradeError, build, submit as submit_error, ok_or}
use trading_aggregators.Action.{Action, lift, pure, map_err, ◌>>=◌, ◌>>◌}
use trading_aggregators.Floats.{Floats}
use trading_aggregators.Solana.Types.{PreparedSwap, Quote, LookupTable, Trade, SwapResult, pending}
use trading_aggregators.Solana.Transaction.{Transaction}
use trading_aggregators.Solana.LookupTables.{merge_lookup_tables}
use trading_aggregators.Solana.GasSponsor.{GasSponsor}
use trading_aggregators.Solana.GasSponsor.Finalizing.{finalize_fee}
use trading_aggregators.Solana.Chain.{Chain, Compiler, Submitter}
use trading_aggregators.Solana.Executor.Budget.{V1Config, last_compiled_index}
use trading_aggregators.Solana.Executor.Signing.{
  SwapSigners, payer, user_signer_index, sign_transaction,
}
use trading_aggregators.Solana.Executor.Build.{Route, build_transaction}

abbrev pub missing_transfer : TradeError
missing_transfer = build "missing sponsorship transfer"

-- The route of a prepared swap with the tables that the caller adds.
abbrev pub route_of : PreparedSwap → List LookupTable → Route
route_of prepared supplemental = record {
  instructions = prepared.instructions;
  lookup_tables = merge_lookup_tables prepared.lookup_tables supplemental;
  format = prepared.format;
}

abbrev pub submitted : PreparedSwap → ℕ → ℕ → SwapResult
submitted prepared sponsorship_fee signature = record {
  hash = signature;
  dex = prepared.venue;
  status = pending;
  amount_received = none;
  application_fee = prepared.quote.application_fee;
  sponsorship_fee = sponsorship_fee;
}

module _ {W : Type 0} ⦃chain : Chain W⦄ where
  -- The sponsorship fee and the transaction to sign: without a sponsor, the quoted fee and the
  -- transaction as built.
  pub settled :
      SwapSigners W
      → Option GasSponsor
      → PreparedSwap
      → Transaction
      → Action W TradeError (ℕ × Transaction)
  settled signers none prepared tx = pure (prepared.quote.sponsorship_fee, tx)
  settled signers (some g) prepared tx =
      lift (ok_or (last_compiled_index prepared.instructions prepared.format) missing_transfer)
      >>= λ index. finalize_fee g.cost_policy signers.price_feed tx index

  module _ ⦃compiler : Compiler V1Config⦄ ⦃f : Floats⦄ where
    -- The part behind the checked signers: nothing was signed before it.
    pub sign_and_submit :
        PreparedSwap
        → SwapSigners W
        → Submitter W
        → Trade
        → Transaction
        → Action W TradeError SwapResult
    sign_and_submit prepared signers submitter t tx = do
      final ← settled signers signers.sponsor prepared tx
      signed ← sign_transaction signers t.wallet final.1
      signature ← map_err (λ _. submit_error "submit") (submitter.submit signed)
      pure (submitted prepared final.0 signature)

    pub submit_swap :
        PreparedSwap
        → SwapSigners W
        → Submitter W
        → Trade
        → ℕ
        → List LookupTable
        → Action W TradeError SwapResult
    submit_swap prepared signers submitter t priority_fee_lamports supplemental = do
      tx ←
          build_transaction (payer signers.sponsor t.wallet) (route_of prepared supplemental)
            priority_fee_lamports submitter.default_tip
      lift (user_signer_index signers.sponsor t.wallet tx)
      sign_and_submit prepared signers submitter t tx

-- ===== src/Solana/GasSponsor/Finalizing.antt =====
-- `SponsorCostPolicy::finalize_fee` and `simulated_cost` of `src/solana/gas_sponsor/cost.rs`.
mod Tests
pub mod Charged
use trading_aggregators.Prelude.{ℕ, String, Bool, false, not, Option, none, some, ◌==◌}
use trading_aggregators.Error.{TradeError, build, rpc, Result, raise_if}
use trading_aggregators.Action.{Action, lift, pure, map_err, ◌>>=◌, ◌>>◌}
use trading_aggregators.Solana.Transaction.{Transaction}
use trading_aggregators.Solana.Chain.{Chain, PriceFeed}
use trading_aggregators.Solana.GasSponsor.Cost.{
  SponsorCostPolicy, SolUsdcPrice, charge, cost_of, replace_reimbursement,
}

abbrev pub price_error : Option String → TradeError
price_error none = build "SOL/USDC price request timed out"
price_error (some e) = build "SOL/USDC price"

module _ {W : Type 0} ⦃chain : Chain W⦄ where
  pub simulated_cost : Transaction → Action W TradeError ℕ
  simulated_cost tx = do
    sim ← map_err (λ _. rpc "simulate sponsor cost") (chain.simulate_transaction tx false)
    lift (cost_of sim)

  abbrev pub charge_now : SponsorCostPolicy → ℕ → SolUsdcPrice → Action W TradeError ℕ
  charge_now s cost price w = (charge s cost price (chain.system_time w), w)

  -- The part behind the price: charge, rewrite, simulate again and check the price's age again.
  pub settle :
      SponsorCostPolicy → Transaction → ℕ → ℕ → SolUsdcPrice → Action W TradeError (ℕ × Transaction)
  settle s tx index cost price = do
    charged ← charge_now s cost price
    rewritten ← lift (replace_reimbursement tx index s.max_fee_usdc charged)
    again ← simulated_cost rewritten
    lift (
        raise_if (not (again == cost))
          (build "sponsor cost changed during preparation; request a fresh swap"))
    charge_now s cost price
    pure (charged, rewritten)

  -- The charge and the rewritten transaction, which the source changes in place.
  pub finalize_fee :
      SponsorCostPolicy → PriceFeed W → Transaction → ℕ → Action W TradeError (ℕ × Transaction)
  finalize_fee s feed tx index = do
    cost ← simulated_cost tx
    price ← map_err price_error feed
    settle s tx index cost price

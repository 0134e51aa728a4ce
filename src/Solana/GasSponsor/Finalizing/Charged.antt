-- ===== src/Solana/GasSponsor/Finalizing/Charged.antt =====
-- What a finalized fee guarantees.
use trading_aggregators.Prelude.{ℕ, ◌≡◌, arith}
use trading_aggregators.Error.{ok}
use trading_aggregators.Action.{map_err, ◌>>=◌, >>=-eq-ok}
use trading_aggregators.Solana.Transaction.{Transaction}
use trading_aggregators.Solana.Chain.{Chain, PriceFeed}
use trading_aggregators.Solana.GasSponsor.Cost.{
  SponsorCostPolicy, SolUsdcPrice, charge, replace_reimbursement,
}
use trading_aggregators.Solana.GasSponsor.Finalizing.{
  simulated_cost, finalize_fee, settle, price_error,
}

module _ {W : Type 0} ⦃chain : Chain W⦄ where
  -- The rewritten transaction comes from `replace_reimbursement` with a charge that is right for a cost
  -- that both the reserved and the rewritten transaction had when simulated, at the fed price.
  abbrev pub IsFinal :
      SponsorCostPolicy → PriceFeed W → Transaction → ℕ → W → ℕ → Transaction → W → Type 0
  IsFinal s feed tx index w charged rewritten w' =
      (cost : ℕ) × (price : SolUsdcPrice) × (w₁ : W) × (w₂ : W) × (simulated_cost tx w
        ≡ (ok cost, w₁))
      × (feed w₁ ≡ (ok price, w₂))
      × (charge s cost price (chain.system_time w₂) ≡ ok charged)
      × (replace_reimbursement tx index s.max_fee_usdc charged ≡ ok rewritten)
      × (simulated_cost rewritten w₂ ≡ (ok cost, w'))

  settle-eq-ok :
      (s : SponsorCostPolicy) (tx : Transaction) (index cost : ℕ) (price : SolUsdcPrice) (w w' : W)
      {charged : ℕ} {rewritten : Transaction}
      → settle s tx index cost price w ≡ (ok (charged, rewritten), w')
      → (charge s cost price (chain.system_time w) ≡ ok charged)
        × (replace_reimbursement tx index s.max_fee_usdc charged ≡ ok rewritten)
        × (simulated_cost rewritten w ≡ (ok cost, w'))
  unfolding settle
  settle-eq-ok s tx index cost price w w' e = ground arith

  pub finalize_fee-IsFinal :
      (s : SponsorCostPolicy) (feed : PriceFeed W) (tx : Transaction) (index : ℕ) (w w' : W)
      {charged : ℕ} {rewritten : Transaction}
      → finalize_fee s feed tx index w ≡ (ok (charged, rewritten), w')
      → IsFinal s feed tx index w charged rewritten w'
  unfolding finalize_fee
  finalize_fee-IsFinal s feed tx index w w' e =
      let (cost, w₁, e₁, k₁) =
        >>=-eq-ok (simulated_cost tx)
          (λ cost. map_err price_error feed >>= λ price. settle s tx index cost price) w w' e in
      let (price, w₂, e₂, k₂) =
        >>=-eq-ok (map_err price_error feed) (settle s tx index cost) w₁ w' k₁ in
      let fed : feed w₁ ≡ (ok price, w₂) = ground arith in
      let (right, replaced, same) = settle-eq-ok s tx index cost price w₂ w' k₂ in
      (cost, price, w₁, w₂, e₁, fed, right, replaced, same)

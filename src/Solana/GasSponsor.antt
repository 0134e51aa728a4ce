-- ===== src/Solana/GasSponsor.antt =====
-- `src/solana/gas_sponsor/mod.rs`: USDC sponsorship. The signer and the price feed are used where a
-- transaction is executed.
mod Tests
pub mod Cost
pub mod Charges
pub mod Finalizing
use trading_aggregators.Prelude.{
  ℕ, ◌-◌, ltb, Bool, true, false, not, ◌||◌, Option, none, some, List, ◌==◌, if◌then◌else◌,
}
use trading_aggregators.Prelude.Words.{checked_sub}
use trading_aggregators.Error.{TradeError, build, Result, ok, err, raise_if, ◌>>=◌, ◌>>◌}
use trading_aggregators.Solana.Keys.{Pubkey, default_key}
use trading_aggregators.Solana.Types.{Side, buy, sell, is_buy, is_usdc, Trade, Quote, PreparedSwap}
use trading_aggregators.Solana.Common.{Platform}
use trading_aggregators.Solana.SdkFee.{append_usdc_fee}
use trading_aggregators.Solana.GasSponsor.Cost.{
  SponsorCostPolicy, new_policy, policy_with_limits, policy_with_service_fee_usdc,
}

abbrev pub default_max_cost_lamports : ℕ
default_max_cost_lamports = 10_000_000

abbrev pub default_max_fee_usdc : ℕ
default_max_fee_usdc = 3_000_000

pub record GasSponsor : Type 0 where
  pub wallet : Pubkey
  pub fee_recipient : Pubkey
  pub cost_policy : SponsorCostPolicy

-- `GasSponsor::new`
pub new : Pubkey → Result TradeError GasSponsor
new wallet = do
  raise_if (wallet == default_key) (build "sponsor wallet must be nonzero")
  policy ← new_policy default_max_cost_lamports default_max_fee_usdc
  ok (record { wallet = wallet; fee_recipient = wallet; cost_policy = policy })

pub with_fee_recipient : GasSponsor → Pubkey → Result TradeError GasSponsor
with_fee_recipient g recipient =
    if recipient == default_key
    then err (build "sponsorship fee recipient must be nonzero")
    else ok (record g { fee_recipient = recipient })

pub with_limits : GasSponsor → ℕ → ℕ → Result TradeError GasSponsor
with_limits g max_cost_lamports max_fee_usdc = do
  policy ← policy_with_limits g.cost_policy max_cost_lamports max_fee_usdc
  ok (record g { cost_policy = policy })

pub with_service_fee_usdc : GasSponsor → ℕ → Result TradeError GasSponsor
with_service_fee_usdc g charge = do
  policy ← policy_with_service_fee_usdc g.cost_policy charge
  ok (record g { cost_policy = policy })

unfoldable pub subtract_fee : ℕ → ℕ → Result TradeError ℕ
subtract_fee amount fee = elim (checked_sub amount fee) [
  | none ↦ err (build "USDC amount must exceed the combined trading and sponsorship fees")
  | some remaining ↦
      if ltb 0 remaining
      then ok remaining
      else err (build "USDC amount must exceed the combined trading and sponsorship fees")
]

unfoldable pub reserve_fee : GasSponsor → Trade → Result TradeError Trade
unfolding subtract_fee
reserve_fee g t = do
  raise_if (not (is_usdc t.settlement) || t.wallet == g.wallet)
      (build "sponsorship requires USDC settlement and a separate fee payer")
  raise_if (g.fee_recipient == t.wallet)
      (build "sponsorship fee recipient must differ from trading wallet")
  if is_buy t.side
      then (subtract_fee t.amount g.cost_policy.max_fee_usdc >>= λ left.
          ok (record t { amount = left }))
      else ok t

-- The outputs less the ceiling, which only a sale takes from them.
unfoldable pub outputs_after : Side → Quote → ℕ → Result TradeError Quote
unfolding subtract_fee
outputs_after buy q ceiling = ok q
outputs_after sell q ceiling = do
  least ← subtract_fee q.min_out ceiling
  expected ← subtract_fee q.expected_out ceiling
  ok (record q { min_out = least; expected_out = expected })

unfoldable pub apply_to_swap :
    ⦃p : Platform⦄ → GasSponsor → Trade → PreparedSwap → Result TradeError PreparedSwap
apply_to_swap g t prepared = do
  let ceiling = g.cost_policy.max_fee_usdc
  q ← outputs_after t.side (record (prepared.quote) { in_amount = t.amount }) ceiling
  instructions ← append_usdc_fee prepared.instructions g.wallet t.wallet g.fee_recipient ceiling
  ok (record prepared {
    quote = record q { sponsorship_fee = ceiling };
    instructions = instructions;
  })

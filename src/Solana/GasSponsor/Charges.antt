-- ===== src/Solana/GasSponsor/Charges.antt =====
-- Sponsored trades and quotes.
use trading_aggregators.Prelude.{ℕ, ◌+◌, ◌≤◌, ◌<◌, ◌≡◌, ◌≢◌, arith, if◌then◌else◌}
use trading_aggregators.Error.{ok}
use trading_aggregators.Solana.Types.{Trade, usdc, is_buy, PreparedSwap, Quote}
use trading_aggregators.Solana.Common.{Platform}
use trading_aggregators.Solana.SdkFee.{append_usdc_fee}
use trading_aggregators.Solana.SdkFee.Transfers.{IsUsdcPayment, append_usdc_fee-IsUsdcPayment}
use trading_aggregators.Solana.GasSponsor.{GasSponsor, reserve_fee, outputs_after, apply_to_swap}
use trading_aggregators.Solana.GasSponsor.Cost.Bounds

-- A sponsor as the constructor and the builders leave it.
pub record IsValid (g : GasSponsor) : Type 0 where
  pub wallet_set : 0 < g.wallet
  pub recipient_set : 0 < g.fee_recipient
  pub policy : Bounds.IsValid g.cost_policy

-- A trade that is reserved for settles in USDC and does not pay itself; a buy is routed with what the
-- ceiling leaves, which is positive, so that routed amount and ceiling make up the amount; a sale is
-- routed whole; nothing but the amount changes.
pub reserve_fee_split :
    (g : GasSponsor) (t : Trade) {t' : Trade}
    → reserve_fee g t ≡ ok t'
    → (t.settlement ≡ usdc)
      × (t.wallet ≢ g.wallet)
      × (t.wallet ≢ g.fee_recipient)
      × (t'.amount + (if is_buy t.side then g.cost_policy.max_fee_usdc else 0) ≡ t.amount)
      × ((if is_buy t.side then 1 else 0) ≤ t'.amount)
      × (t' ≡ record t { amount = t'.amount })
unfolding reserve_fee
reserve_fee_split g t e = ground arith

-- What the ceiling leaves of a quote.
pub outputs_after_split :
    (t : Trade) (q : Quote) (ceiling : ℕ) {q' : Quote}
    → outputs_after t.side q ceiling ≡ ok q'
    → let taken = if is_buy t.side then 0 else ceiling in
      (q'.expected_out + taken ≡ q.expected_out)
      × (q'.min_out + taken ≡ q.min_out)
      × (0 < q.min_out → 0 < q'.min_out)
      × ((if is_buy t.side then 0 else 1) ≤ q'.min_out)
      × ((if is_buy t.side then 0 else 1) ≤ q'.expected_out)
      × (q'.in_amount ≡ q.in_amount)
      × (q'.application_fee ≡ q.application_fee)
unfolding outputs_after
outputs_after_split t q ceiling e = ground arith

module _ ⦃p : Platform⦄ where
  apply_to_swap_steps :
      (g : GasSponsor) (t : Trade) (prepared : PreparedSwap) {after : PreparedSwap}
      → apply_to_swap g t prepared ≡ ok after
      → (outputs_after t.side
            (record (prepared.quote) { in_amount = t.amount })
            g.cost_policy.max_fee_usdc
          ≡ ok (record (after.quote) { sponsorship_fee = prepared.quote.sponsorship_fee }))
        × (append_usdc_fee prepared.instructions g.wallet t.wallet g.fee_recipient
              g.cost_policy.max_fee_usdc
            ≡ ok after.instructions)
        × (after.quote.sponsorship_fee ≡ g.cost_policy.max_fee_usdc)
        × (after.venue ≡ prepared.venue)
        × (after.format ≡ prepared.format)
  unfolding apply_to_swap outputs_after
  apply_to_swap_steps g t prepared e =
      (ground arith, ground arith, ground arith, ground arith, ground arith)

  -- A sponsored swap names the whole amount as its input and the ceiling as its sponsorship fee; a
  -- sale's outputs give up exactly the ceiling and both are positive after it, a buy's stay; the
  -- instructions are the route's followed by one USDC payment of the ceiling from the trading wallet to
  -- the fee recipient, whose account the sponsor pays for.
  pub apply_to_swap_split :
      (g : GasSponsor) (t : Trade) (prepared : PreparedSwap) {after : PreparedSwap}
      → apply_to_swap g t prepared ≡ ok after
      → let taken = if is_buy t.side then 0 else g.cost_policy.max_fee_usdc in
        (after.quote.in_amount ≡ t.amount)
        × (after.quote.sponsorship_fee ≡ g.cost_policy.max_fee_usdc)
        × (after.quote.expected_out + taken ≡ prepared.quote.expected_out)
        × (after.quote.min_out + taken ≡ prepared.quote.min_out)
        × (0 < prepared.quote.min_out → 0 < after.quote.min_out)
        × ((if is_buy t.side then 0 else 1) ≤ after.quote.min_out)
        × ((if is_buy t.side then 0 else 1) ≤ after.quote.expected_out)
        × (after.quote.application_fee ≡ prepared.quote.application_fee)
        × IsUsdcPayment prepared.instructions after.instructions g.wallet t.wallet g.fee_recipient
            g.cost_policy.max_fee_usdc
  apply_to_swap_split g t prepared {after} e =
      let (left, paid, fee, same_venue, same_format) = apply_to_swap_steps g t prepared e in
      let (expected, least, positive, some_least, some_expected, input, application) =
        outputs_after_split t (record (prepared.quote) { in_amount = t.amount })
          g.cost_policy.max_fee_usdc left in
      (
        input,
        fee,
        expected,
        least,
        positive,
        some_least,
        some_expected,
        application,
        append_usdc_fee-IsUsdcPayment prepared.instructions g.wallet t.wallet g.fee_recipient
            g.cost_policy.max_fee_usdc paid,
      )

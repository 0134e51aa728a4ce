-- ===== src/Solana/Client/Swapping/Outcome.antt =====
-- What a prepared swap comes from.
use trading_aggregators.Prelude.{
  ◌<◌, ◌^◌, ◌≡◌, ◌≢◌, inl, inr, refl, subst, false, ◌&&◌, Option, none, some, is_some, ap, arith,
}
use trading_aggregators.Error.{TradeError, ok, Result-cases}
use trading_aggregators.Action.{Action, map_err, dex_err}
use trading_aggregators.Floats.{Floats}
use trading_aggregators.Solana.Types.{
  QuoteSource, Trade, PreparedSwap, validate, native_venue, is_usdc, settlement_mint,
}
use trading_aggregators.Solana.Common.{Platform}
use trading_aggregators.Solana.ProviderFee.{ProviderFee}
use trading_aggregators.Solana.GasSponsor.{GasSponsor}
use trading_aggregators.Solana.Client.UsdValues.{PoolPrices}
use trading_aggregators.Solana.Client.Routing.{
  Client, quote_source_for, sponsor_for, provider_fee_of, transfer_fee, routed_trade,
  accept_candidate,
}
use trading_aggregators.Solana.Client.Routing.Accounting.{
  IsValidFee, IsAccounted, accept_candidate_accounts,
}
use trading_aggregators.Solana.Client.Swapping.{
  Adapters, bounded_route, prepare_route, unsponsored_or, wallet_of, prepare_routed,
  prepare_selected_swap,
}
use trading_aggregators.Solana.Client.Swapping.Choosing.{
  IsChosen, IsSupported, IsCollected, quote_source_for-IsChosen, native-IsSupported,
  provider_fee_of-IsCollected, routed_trade-rest, transfer_fee-IsValidFee,
}

module _ {W : Type 0} ⦃adapters : Adapters W⦄ where
  -- What the source's adapter is asked for: a swap, a sponsored swap, or one whose fee it collects.
  abbrev pub request :
      Option GasSponsor
      → QuoteSource
      → Trade
      → Option ProviderFee
      → Action W TradeError PreparedSwap
  request none source t none =
      map_err (dex_err (adapters.name source)) (adapters.prepare_swap source t)
  request (some g) source t none =
      map_err (dex_err (adapters.name source)) (adapters.prepare_sponsored_swap source t g.wallet)
  request none source t (some fee) = adapters.prepare_with_fee source t none fee
  request (some g) source t (some fee) = adapters.prepare_with_fee source t (some g.wallet) fee

  prepare_route-eq-request :
      (c : Client) (source : QuoteSource) (t : Trade) (collected : Option ProviderFee)
      (g : Option GasSponsor)
      → sponsor_for c t ≡ g
      → prepare_route c source t collected ≡ request g source t collected
  unfolding prepare_route unsponsored_or
  prepare_route-eq-request c source t none none e =
      ap (λ o. map_err (dex_err (adapters.name source)) (unsponsored_or source t o)) e
  prepare_route-eq-request c source t none (some g) e =
      ap (λ o. map_err (dex_err (adapters.name source)) (unsponsored_or source t o)) e
  prepare_route-eq-request c source t (some fee) none e =
      ap (λ o. adapters.prepare_with_fee source t (wallet_of o) fee) e
  prepare_route-eq-request c source t (some fee) (some g) e =
      ap (λ o. adapters.prepare_with_fee source t (wallet_of o) fee) e

  -- The source answered the request within 15 seconds.
  abbrev pub IsOffered :
      Option GasSponsor → QuoteSource → Trade → Option ProviderFee → W → PreparedSwap → W → Type 0
  IsOffered g source t collected w candidate w' =
      adapters.timeout 15_000 (request g source t collected) w ≡ (ok (ok candidate), w')

  bounded_route-IsOffered :
      (c : Client) (source : QuoteSource) (t : Trade) (collected : Option ProviderFee) (w w' : W)
      {candidate : PreparedSwap}
      → bounded_route (adapters.name source) (prepare_route c source t collected) w
        ≡ (ok candidate, w')
      → IsOffered (sponsor_for c t) source t collected w candidate w'
  unfolding bounded_route
  bounded_route-IsOffered c source t collected w w' {candidate} e =
      subst (λ m. adapters.timeout 15_000 m w ≡ (ok (ok candidate), w'))
        (prepare_route-eq-request c source t collected (sponsor_for c t) refl) (ground arith)

-- Every output that a source offers is a `u64`.
abbrev pub AreU64 : {W : Type 0} → Adapters W → Type 0
AreU64 {W} adapters =
    (g : Option GasSponsor) (source : QuoteSource) (t : Trade) (collected : Option ProviderFee)
    (w w' : W) (candidate : PreparedSwap)
    → IsOffered ⦃adapters = adapters⦄ g source t collected w candidate w'
    → candidate.quote.expected_out < 2 ^ 64

module _ {W : Type 0} ⦃adapters : Adapters W⦄ where
  -- How a trade and its prepared swap belong together.
  abbrev pub IsPrepared : ⦃p : Platform⦄ → Client → Trade → W → PreparedSwap → Type 0
  IsPrepared c t w final =
      (source : QuoteSource) × (collected : Option ProviderFee) × (routed : Trade)
      × (candidate : PreparedSwap) × (w₁ : W) × IsChosen c t source
      × IsSupported t source
      × IsCollected c.sdk_fee t source collected
      × (routed ≡ record t { amount = routed.amount })
      × IsOffered (sponsor_for c t) source routed collected w candidate w₁
      × IsAccounted c t routed collected candidate final

  module _ ⦃p : Platform⦄ ⦃f : Floats⦄ where
    prepare_routed-eq-ok :
        (c : Client) (t : Trade) (source : _) (collected : Option ProviderFee) (routed : Trade)
        (w w' : W) {final : PreparedSwap}
        → prepare_routed c t source collected routed w ≡ (ok final, w')
        → (candidate : PreparedSwap) × (prices : Option PoolPrices) × (w₁ : W) × (bounded_route
              (adapters.name source)
              (prepare_route c source routed collected)
              w
            ≡ (ok candidate, w₁))
          × (accept_candidate c t routed collected prices candidate ≡ ok final)
    unfolding prepare_routed
    prepare_routed-eq-ok c t source collected routed w w' e =
        let (candidate, w₁) =
          bounded_route (adapters.name source) (prepare_route c source routed collected) w in
        let (prices, w₂) = adapters.pool_prices t source w₁ in
        elim (Result-cases candidate) [
          | inl (found, e₁) ↦ (found, prices, w₁, ap (λ r. (r, w₁)) e₁, ground arith)
          | inr (failed, e₁) ↦ absurd (ground arith)
        ]

    prepared :
        (c : Client) (t routed : Trade) (collected : Option ProviderFee) (w w' : W)
        {final : PreparedSwap}
        → IsValidFee c.sdk_fee
        → t.amount < 2 ^ 64
        → AreU64 adapters
        → IsSupported t (quote_source_for c t)
        → provider_fee_of c.sdk_fee t (quote_source_for c t) ≡ ok collected
        → routed_trade c t (transfer_fee c collected) ≡ ok routed
        → prepare_routed c t (quote_source_for c t) collected routed w ≡ (ok final, w')
        → IsPrepared c t w final
    prepared c t routed collected w w' v h u native e₁ e₂ e₃ =
        let source = quote_source_for c t in
        let (candidate, prices, w₁, asked, accepted) =
          prepare_routed-eq-ok c t source collected routed w w' e₃ in
        let valid = transfer_fee-IsValidFee c collected v in
        let rest = routed_trade-rest c t (transfer_fee c collected) valid h e₂ in
        let same : sponsor_for c routed ≡ sponsor_for c t =
          ap (λ (x : Trade). sponsor_for c x) rest in
        let offered =
          subst (λ g. IsOffered g source routed collected w candidate w₁) same
            (bounded_route-IsOffered c source routed collected w w₁ asked) in
        let fits = u (sponsor_for c t) source routed collected w w₁ candidate offered in
        (
          source,
          collected,
          routed,
          candidate,
          w₁,
          quote_source_for-IsChosen c t,
          native,
          provider_fee_of-IsCollected c.sdk_fee t source collected e₁,
          rest,
          offered,
          accept_candidate_accounts c t routed collected prices candidate valid h fits e₂ accepted,
        )

    -- A swap is prepared only for a valid trade, of a `u64` amount under a fee as its constructor leaves
    -- it, where the sources' outputs are `u64`. Its source is the trade's, else the client's, else the
    -- venue's or Relay, and is not Pump.fun or PumpSwap for USDC; a fee is collected by the provider just
    -- where it is configured so with a positive rate, by bloXroute, DFlow or Relay; that source was asked
    -- for the trade with only its amount changed, with the sponsor's wallet in a sponsored trade, and
    -- offered a candidate within 15 seconds; and the swap accounts for the trade's whole amount and for
    -- the candidate's outputs.
    pub prepare_selected_swap-IsPrepared :
        (c : Client) (t : Trade) (w w' : W) {final : PreparedSwap}
        → IsValidFee c.sdk_fee
        → t.amount < 2 ^ 64
        → AreU64 adapters
        → prepare_selected_swap c t w ≡ (ok final, w')
        → (0 < t.amount)
          × (t.slippage_bps < 10_000)
          × (t.mint ≢ settlement_mint t.settlement)
          × IsPrepared c t w final
    unfolding prepare_selected_swap validate
    prepare_selected_swap-IsPrepared c t w w' {final} v h u e =
        let source = quote_source_for c t in
        elim (Result-cases (provider_fee_of c.sdk_fee t source)) [
          | inl (collected, e₁) ↦
              elim (Result-cases (routed_trade c t (transfer_fee c collected))) [
                | inl (routed, e₂) ↦
                    let last : prepare_routed c t source collected routed w ≡ (ok final, w') =
                      ground arith in
                    let native : (is_some (native_venue source) && is_usdc t.settlement) ≡ false =
                      ground arith in
                    (
                      ground arith,
                      ground arith,
                      ground arith,
                      prepared c t routed collected w w' v h u (native-IsSupported t source native)
                          e₁ e₂ last,
                    )
                | inr (failed, e₂) ↦ absurd (ground arith)
              ]
          | inr (failed, e₁) ↦ absurd (ground arith)
        ]

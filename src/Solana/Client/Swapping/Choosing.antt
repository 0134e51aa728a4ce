-- ===== src/Solana/Client/Swapping/Choosing.antt =====
-- The source of a swap, the fee that its provider collects and the trade that is routed, in
-- `src/solana/client/routing.rs`.
use trading_aggregators.Prelude.{
  ◌<◌, ◌^◌, ◌≡◌, ◌≢◌, ◌⊎◌, inl, inr, ◌∙◌, refl, true, false, ◌&&◌, Option, none, some, is_some, ap,
  arith,
}
use trading_aggregators.Error.{ok, >>=-eq-ok}
use trading_aggregators.Solana.Types.{
  QuoteSource, jupiter, dflow, bloxroute, relay, Venue, Trade, native_venue, is_usdc, sol, usdc,
  settlement_mint,
}
use trading_aggregators.Solana.SdkFee.{SdkFee, sdk, provider}
use trading_aggregators.Solana.SdkFee.Charges.{trade_after_fee_split}
use trading_aggregators.Solana.ProviderFee
use trading_aggregators.Solana.ProviderFee.{ProviderFee}
use trading_aggregators.Solana.GasSponsor.{GasSponsor}
use trading_aggregators.Solana.GasSponsor.Charges.{reserve_fee_split}
use trading_aggregators.Solana.Client.Routing.{
  Client, quote_source_for, sponsor_for, provider_fee_of, collects_fees, transfer_fee, after_fee,
  reserved, routed_trade,
}
use trading_aggregators.Solana.Client.Routing.Accounting.{IsValidFee}

-- The trade's source comes first, then the client's, then the venue's own and last Relay.
abbrev pub IsVenueSource : Option Venue → QuoteSource → Type 0
IsVenueSource none source = source ≡ relay
IsVenueSource (some Venue.pump_fun) source = source ≡ QuoteSource.pump_fun
IsVenueSource (some Venue.pump_swap) source = source ≡ QuoteSource.pump_swap

abbrev pub IsChosen : Client → Trade → QuoteSource → Type 0
IsChosen c t source =
    (t.quote_source ≡ some source)
    ⊎ ((t.quote_source ≡ none) × (c.quote_source ≡ some source))
    ⊎ ((t.quote_source ≡ none) × (c.quote_source ≡ none) × IsVenueSource t.venue source)

pub quote_source_for-IsChosen : (c : Client) (t : Trade) → IsChosen c t (quote_source_for c t)
unfolding quote_source_for
quote_source_for-IsChosen c t =
    elim t.quote_source
      as (λ o.
        IsChosen c (record t { quote_source = o })
          (quote_source_for c (record t { quote_source = o }))) [
            | some s ↦ inl refl
            | none ↦
                elim c.quote_source
                  as (λ o.
                    IsChosen (record c { quote_source = o }) (record t { quote_source = none })
                      (quote_source_for (record c { quote_source = o })
                        (record t { quote_source = none }))) [
                          | some s ↦ inr (inl (refl, refl))
                          | none ↦
                              elim t.venue
                                as (λ v.
                                  IsChosen (record c { quote_source = none })
                                    (record t { quote_source = none; venue = v })
                                    (quote_source_for (record c { quote_source = none })
                                      (record t { quote_source = none; venue = v }))) [
                                        | none ↦ inr (inr (refl, refl, refl))
                                        | some Venue.pump_fun ↦ inr (inr (refl, refl, refl))
                                        | some Venue.pump_swap ↦ inr (inr (refl, refl, refl))
                                      ]
                        ]
          ]

-- Pump.fun and PumpSwap trade SOL.
abbrev pub IsSupported : Trade → QuoteSource → Type 0
IsSupported t source =
    (t.settlement ≡ sol) ⊎ ((source ≢ QuoteSource.pump_fun) × (source ≢ QuoteSource.pump_swap))

-- The fee that the provider collects: the configured one where its rate is positive and the provider is
-- to collect it, which just three sources do, in the settlement currency.
abbrev pub IsCollected : Option SdkFee → Trade → QuoteSource → Option ProviderFee → Type 0
IsCollected none t source collected = collected ≡ none
IsCollected (some fee) t source none = (fee.collection ≡ sdk) ⊎ (fee.bps ≡ 0)
IsCollected (some fee) t source (some made) =
    (fee.collection ≡ provider)
    × (0 < fee.bps)
    × ((source ≡ bloxroute) ⊎ (source ≡ dflow) ⊎ (source ≡ relay))
    × (made ≡ record { fee = fee; mint = settlement_mint t.settlement; side = t.side })

-- The three sources that collect fees.
collects_fees-cases :
    (source : QuoteSource)
    → collects_fees source ≡ true
    → (source ≡ bloxroute) ⊎ (source ≡ dflow) ⊎ (source ≡ relay)
collects_fees-cases bloxroute h = inl refl
collects_fees-cases dflow h = inr (inl refl)
collects_fees-cases relay h = inr (inr refl)
collects_fees-cases jupiter h = absurd (ground arith)
collects_fees-cases QuoteSource.pump_fun h = absurd (ground arith)
collects_fees-cases QuoteSource.pump_swap h = absurd (ground arith)

new-eq-ok :
    (fee : SdkFee) (t : Trade) {made : ProviderFee}
    → ProviderFee.new fee t ≡ ok made
    → made ≡ record { fee = fee; mint = settlement_mint t.settlement; side = t.side }
unfolding ProviderFee.new
new-eq-ok fee t e = ground arith

pub provider_fee_of-IsCollected :
    (configured : Option SdkFee) (t : Trade) (source : QuoteSource) (collected : Option ProviderFee)
    → provider_fee_of configured t source ≡ ok collected
    → IsCollected configured t source collected
unfolding provider_fee_of
provider_fee_of-IsCollected none t source collected e = ground arith
provider_fee_of-IsCollected (some fee) t source none e = ground arith
provider_fee_of-IsCollected (some fee) t source (some made) e =
    let (who, rate) : (fee.collection ≡ provider) × (0 < fee.bps) = (ground arith, ground arith) in
    let where_to : collects_fees source ≡ true = ground arith in
    let made_so : ProviderFee.new fee t ≡ ok made = ground arith in
    (who, rate, collects_fees-cases source where_to, new-eq-ok fee t made_so)

sol_of_test : (settlement : _) → is_usdc settlement ≡ false → settlement ≡ sol
sol_of_test sol h = refl
sol_of_test usdc h = absurd (ground arith)

pub native-IsSupported :
    (t : Trade) (source : QuoteSource)
    → (is_some (native_venue source) && is_usdc t.settlement) ≡ false
    → IsSupported t source
unfolding native_venue
native-IsSupported t QuoteSource.pump_fun h = inl (sol_of_test t.settlement h)
native-IsSupported t QuoteSource.pump_swap h = inl (sol_of_test t.settlement h)
native-IsSupported t jupiter h = inr (ground arith, ground arith)
native-IsSupported t dflow h = inr (ground arith, ground arith)
native-IsSupported t bloxroute h = inr (ground arith, ground arith)
native-IsSupported t relay h = inr (ground arith, ground arith)

-- Routing changes nothing but the amount.
after_fee-rest :
    (fee : Option SdkFee) (t : Trade) {t' : Trade}
    → IsValidFee fee
    → t.amount < 2 ^ 64
    → after_fee fee t ≡ ok t'
    → t' ≡ record t { amount = t'.amount }
unfolding after_fee
after_fee-rest none t v h e = ground arith
after_fee-rest (some fee) t v h e =
    let (split, positive, rest) = trade_after_fee_split fee t v h e in rest

reserved-rest :
    (g : Option GasSponsor) (t : Trade) {t' : Trade}
    → reserved g t ≡ ok t'
    → t' ≡ record t { amount = t'.amount }
unfolding reserved
reserved-rest none t e = ground arith
reserved-rest (some g) t e =
    let (settles, other, payer, split, positive, rest) = reserve_fee_split g t e in rest

pub routed_trade-rest :
    (c : Client) (t : Trade) (fee : Option SdkFee) {routed : Trade}
    → IsValidFee fee
    → t.amount < 2 ^ 64
    → routed_trade c t fee ≡ ok routed
    → routed ≡ record t { amount = routed.amount }
unfolding routed_trade
routed_trade-rest c t fee {routed} v h e =
    let (between, e₁, e₂) = >>=-eq-ok (after_fee fee t) _ e in
    let first = after_fee-rest fee t v h e₁ in
    let second = reserved-rest (sponsor_for c t) between e₂ in
    second ∙ ap (λ (x : Trade). record x { amount = routed.amount }) first

pub transfer_fee-IsValidFee :
    (c : Client) (collected : Option ProviderFee)
    → IsValidFee c.sdk_fee
    → IsValidFee (transfer_fee c collected)
transfer_fee-IsValidFee c none v = v
transfer_fee-IsValidFee c (some made) v = tt

-- ===== src/Solana/Client/Routing.antt =====
-- `src/solana/client/routing.rs`: choosing a source, routing what the fees leave, checking the
-- candidate and charging the fees.
mod Tests
pub mod Accounting
use trading_aggregators.Prelude.{
  ℕ, String, Bool, true, false, not, ◌&&◌, ◌||◌, Option, none, some, List, ltb, ◌==◌, is_some,
  is_empty, keep_if, or_else, unwrap_or, if◌then◌else◌,
}
use trading_aggregators.Error.{TradeError, build, venue, Result, ok, err, raise_if, ◌>>=◌, ◌>>◌}
use trading_aggregators.Floats.{Floats}
use trading_aggregators.Solana.Keys.{Pubkey}
use trading_aggregators.Solana.Types.{
  Venue, QuoteSource, jupiter, dflow, bloxroute, relay, native_venue, is_usdc, Trade, validate,
  Quote, UsdValue, PreparedSwap, LookupTable,
}
use trading_aggregators.Solana.Common.{Platform}
use trading_aggregators.Solana.SdkFee.{
  SdkFee, FeeCollection, sdk, provider, trade_after_fee, apply_with_payer,
}
use trading_aggregators.Solana.ProviderFee
use trading_aggregators.Solana.ProviderFee.{ProviderFee}
use trading_aggregators.Solana.GasSponsor.{GasSponsor, reserve_fee, apply_to_swap}
use trading_aggregators.Solana.Client.UsdValues.{PoolPrices, usd_value, usd_value_after_fees}

-- `TradingClient`, without its connections.
pub record Client : Type 0 where
  pub quote_source : Option QuoteSource
  pub sdk_fee : Option SdkFee
  pub gas_sponsor : Option GasSponsor
  pub usd_value_enabled : Bool
  pub shared_lookup_tables : List LookupTable

abbrev pub default_source : Option Venue → QuoteSource
default_source none = relay
default_source (some Venue.pump_fun) = QuoteSource.pump_fun
default_source (some Venue.pump_swap) = QuoteSource.pump_swap

unfoldable pub quote_source_for : Client → Trade → QuoteSource
quote_source_for c t = unwrap_or (or_else t.quote_source c.quote_source) (default_source t.venue)

-- `sponsor_for`
abbrev pub sponsor_for : Client → Trade → Option GasSponsor
sponsor_for c t = keep_if (is_usdc t.settlement) c.gas_sponsor

abbrev pub is_provider : FeeCollection → Bool
is_provider sdk = false
is_provider provider = true

abbrev pub collects_fees : QuoteSource → Bool
collects_fees bloxroute = true
collects_fees dflow = true
collects_fees relay = true
collects_fees jupiter = false
collects_fees QuoteSource.pump_fun = false
collects_fees QuoteSource.pump_swap = false

-- `provider_fee`, for the fee that is configured.
unfoldable pub provider_fee_of :
    Option SdkFee → Trade → QuoteSource → Result TradeError (Option ProviderFee)
provider_fee_of none t source = ok none
provider_fee_of (some fee) t source =
    if is_provider fee.collection && ltb 0 fee.bps
    then (if collects_fees source
        then (ProviderFee.new fee t >>= λ made. ok (some made))
        else err (build "provider fee collection requires bloXroute, DFlow or Relay"))
    else ok none

-- A provider-collected fee replaces the transfer.
abbrev pub transfer_fee : Client → Option ProviderFee → Option SdkFee
transfer_fee c collected = keep_if (not (is_some collected)) c.sdk_fee

unfoldable pub after_fee : Option SdkFee → Trade → Result TradeError Trade
after_fee none t = ok t
after_fee (some fee) t = trade_after_fee fee t

unfoldable pub reserved : Option GasSponsor → Trade → Result TradeError Trade
reserved none t = ok t
reserved (some g) t = reserve_fee g t

unfoldable pub routed_trade : Client → Trade → Option SdkFee → Result TradeError Trade
routed_trade c t fee = after_fee fee t >>= λ routed. reserved (sponsor_for c t) routed

unfoldable pub validate_candidate : Trade → PreparedSwap → Bool → Result TradeError (Unit {0})
validate_candidate t prepared provider_fee =
    raise_if
      (not (prepared.quote.in_amount == t.amount)
        || (not provider_fee && not (prepared.quote.application_fee == 0))
        || not (prepared.quote.sponsorship_fee == 0)
        || prepared.quote.min_out == 0
        || ltb prepared.quote.expected_out prepared.quote.min_out
        || is_empty prepared.instructions)
      (build "returned invalid output amounts")

-- The trade's whole amount as the quote's input.
abbrev pub with_input : Trade → PreparedSwap → PreparedSwap
with_input t prepared = record prepared { quote = record (prepared.quote) { in_amount = t.amount } }

abbrev pub fee_payer : Option GasSponsor → Trade → Pubkey
fee_payer none t = t.wallet
fee_payer (some g) t = g.wallet

module _ ⦃p : Platform⦄ where
  unfoldable pub applied :
      Option SdkFee → Trade → PreparedSwap → Pubkey → Result TradeError PreparedSwap
  applied none t prepared payer = ok prepared
  applied (some fee) t prepared payer = apply_with_payer fee t prepared payer

  unfoldable pub sponsored :
      Option GasSponsor → Trade → PreparedSwap → Result TradeError PreparedSwap
  sponsored none t prepared = ok prepared
  sponsored (some g) t prepared = apply_to_swap g t prepared

  -- `append_fees`: the transfers go behind the full route.
  unfoldable pub append_fees :
      Client → Trade → PreparedSwap → Option SdkFee → Result TradeError PreparedSwap
  append_fees c t prepared fee =
      applied fee t prepared (fee_payer (sponsor_for c t) t) >>= λ charged.
      sponsored (sponsor_for c t) t (with_input t charged)

-- The value shown for a swap: from pool prices, else from what the provider reported.
abbrev pub shown_value :
    ⦃f : Floats⦄ → Client → Trade → Option PoolPrices → Quote → Quote → Option UsdValue
shown_value c t prices routed charged =
    if c.usd_value_enabled
    then or_else (elim prices [ none ↦ none | some found ↦ usd_value found t.side charged ])
        (usd_value_after_fees routed charged)
    else none

-- What `prepare_selected_swap` does with the candidate that the source returned.
unfoldable pub accept_candidate :
    ⦃p : Platform⦄ ⦃f : Floats⦄
    → Client
    → Trade
    → Trade
    → Option ProviderFee
    → Option PoolPrices
    → PreparedSwap
    → Result TradeError PreparedSwap
accept_candidate c t routed collected prices candidate = do
  validate_candidate routed candidate (is_some collected)
  charged ← append_fees c t candidate (transfer_fee c collected)
  ok (record charged {
    quote = record (charged.quote) {
      usd_value = shown_value c t prices candidate.quote charged.quote;
    };
  })

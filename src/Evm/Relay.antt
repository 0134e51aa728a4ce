-- ===== src/Evm/Relay.antt =====
-- `src/evm/sources/relay/mod.rs`: what Relay's response must say of the trade.
pub mod Transactions
pub mod Adapter
use trading_aggregators.Prelude.{
  ℕ, ◌-◌, String, Bool, true, false, not, ◌&&◌, ◌||◌, Option, none, some, List, [], ◌∷◌, ◌++◌, ltb,
  leb, ◌==◌, if◌then◌else◌, any, is_empty, is_some,
}
use trading_aggregators.Prelude.Bytes.{codes}
use trading_aggregators.Prelude.Words.{add_u256}
use trading_aggregators.Error.{TradeError, Result, ok, err, raise_if, map_err, ◌>>=◌, ◌>>◌}
use trading_aggregators.Floats.{Floats}
use trading_aggregators.Relay.{
  venue, decode_error, Equality, FloatText, Swap, Details, Fees, CurrencyAmount, matches, usd_value,
}
use trading_aggregators.Relay
use trading_aggregators.Evm.Types.{
  Address, Amount, AppFee, Currency, native, token, FeeAmount, Quote, Trade, address_of, of,
  min_out,
}
use trading_aggregators.Evm.Network.{Network}

-- `Amount::from_str_radix` at a text of ASCII digits and a radix.
pub record AmountText : Type 0 where
  pub from_str_radix : List ℕ → ℕ → Result String Amount

instance abbrev pub address_equality : Equality Address
address_equality = record { eq = ◌==◌ }

abbrev pub is_digit : ℕ → Bool
is_digit c = leb b'0' c && leb c b'9'

unfoldable pub decimal_bytes : ⦃text : AmountText⦄ → List ℕ → Result TradeError Amount
decimal_bytes ⦃text⦄ value = do
  raise_if (is_empty value || any (λ c. not (is_digit c)) value)
      (decode_error "expected a decimal integer amount")
  map_err decode_error (text.from_str_radix value 10)

abbrev listed : Option (CurrencyAmount Address) → List (CurrencyAmount Address)
listed none = []
listed (some fee) = fee ∷ []

-- Relay takes slippage before its fees are taken from the output.
unfoldable pub slippage_floor : Trade → Amount → Amount → Amount
slippage_floor t output fees = min_out t (add_u256 output fees) - fees

abbrev pub currency_at : Address → Currency
currency_at address = if address == 0 then native else token address

module _ ⦃text : AmountText⦄ where
  unfoldable pub decimal : String → Result TradeError Amount
  decimal value = decimal_bytes (codes value)

  -- The sum with one more fee, if that is taken from the output.
  sum_with : Relay.Currency Address → Amount → CurrencyAmount Address → Result TradeError Amount
  sum_with output sum fee =
      let more = decimal fee.amount >>= λ amount. ok (add_u256 sum amount) in
      if (fee.currency.chain_id == output.chain_id) && (fee.currency.address == output.address)
      then more
      else ok sum

  fold_fees :
      Relay.Currency Address → Amount → List (CurrencyAmount Address) → Result TradeError Amount
  fold_fees output sum [] = ok sum
  fold_fees output sum (fee ∷ fees) = sum_with output sum fee >>= λ more. fold_fees output more fees

  unfoldable pub fees_from_output : Fees Address → Relay.Currency Address → Result TradeError Amount
  unfolding fold_fees sum_with
  fees_from_output fees output = fold_fees output 0 (listed fees.relayer ++ listed fees.app)

  module _ ⦃network : Network⦄ where
    -- A fee that was asked for and is there.
    charged_fee :
        CurrencyAmount Address → Amount → Trade → AppFee → Result TradeError (Option FeeAmount)
    charged_fee app amount t requested = do
      raise_if (not (app.currency.chain_id == network.chain_id))
          (decode_error "app fee is on a different chain")
      raise_if
          ((app.currency.address == address_of t.input) && not (amount == of requested t.amount))
          (decode_error "app fee differs from the requested rate")
      ok (some (record { currency = currency_at app.currency.address; amount = amount }))

    requested_fee :
        CurrencyAmount Address
        → Amount
        → Trade
        → Option AppFee
        → Result TradeError (Option FeeAmount)
    unfolding charged_fee
    requested_fee app amount t none =
        if amount == 0 then ok none else err (decode_error "unexpected app fee")
    requested_fee app amount t (some requested) = charged_fee app amount t requested

    unfoldable pub app_fee :
        Option (CurrencyAmount Address)
        → Trade
        → Option AppFee
        → Result TradeError (Option FeeAmount)
    unfolding requested_fee
    app_fee none t requested =
        if is_some requested then err (decode_error "missing requested app fee") else ok none
    app_fee (some app) t requested =
        decimal app.amount >>= λ amount. requested_fee app amount t requested

    -- `quote`, for the details and the fees of the response.
    unfoldable pub quote_of :
        ⦃floats : FloatText⦄
        → ⦃f : Floats⦄ → Details Address
        → Fees Address
        → Swap Address
        → Trade
        → Option AppFee
        → Result TradeError Quote
    quote_of details fees swap t fee = do
      raise_if (not (matches details swap))
          (decode_error "quote does not match the requested chain, wallet or currencies")
      input ← decimal details.currency_in.amount
      output ← decimal details.currency_out.amount
      minimum ← decimal details.currency_out.minimum_amount
      taken ← fees_from_output fees details.currency_out.currency
      raise_if
          (not (input == t.amount)
            || minimum == 0
            || ltb output minimum
            || ltb minimum (slippage_floor t output taken))
          (decode_error "invalid quote amounts or slippage")
      charged ← app_fee fees.app t fee
      ok (record {
        chain_id = network.chain_id;
        source = venue;
        input = t.input;
        output = t.output;
        in_amount = input;
        expected_out = output;
        min_out = minimum;
        application_fee = charged;
        usd_value = usd_value details;
      })

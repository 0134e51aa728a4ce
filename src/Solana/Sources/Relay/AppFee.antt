-- ===== src/Solana/Sources/Relay/AppFee.antt =====
-- `src/solana/sources/relay/app_fee.rs`: the fee that Relay collects.
use trading_aggregators.Prelude.{
  ℕ, String, Bool, not, ◌||◌, Option, none, some, List, [], ◌∷◌, ◌==◌,
}
use trading_aggregators.Error.{TradeError, build, Result, ok, raise_if, ok_or, ◌>>=◌, ◌>>◌}
use trading_aggregators.Text.{KeyText, string_eq, show_nat}
use trading_aggregators.Relay.{decode_error, AppFeeRequest, Fees, CurrencyAmount}
use trading_aggregators.Solana.Types.{is_buy, Trade, Quote}
use trading_aggregators.Solana.ProviderFee.{ProviderFee, validate_amount}
use trading_aggregators.Solana.Sources.Relay.{solana_chain_id, parse_amount, currencies}

module _ ⦃text : KeyText⦄ where
  -- `app_fee::request`
  unfoldable pub request : Trade → ProviderFee → Result TradeError (AppFeeRequest String)
  request t fee = do
    raise_if (not (is_buy t.side))
        (build "Relay API fees support buys only; use SDK fee collection for SOL/USDC sell fees")
    recipient ←
        ok_or fee.fee.relay_fee_recipient
          (build "Relay provider fees require with_relay_fee_recipient(EVM address)")
    ok (record { recipient = recipient; fee = show_nat fee.fee.bps })

  unfoldable pub charged_amount : Option (CurrencyAmount String) → Result TradeError ℕ
  charged_amount none = ok 0
  charged_amount (some app) = parse_amount app.amount

  -- Whether a fee is charged in another currency than the trade's input.
  abbrev pub is_elsewhere : CurrencyAmount String → Trade → Bool
  is_elsewhere app t =
      not (app.currency.chain_id == solana_chain_id)
      || not (string_eq app.currency.address (currencies t).0)

  -- `app_fee::apply`: the quote as it stands afterwards.
  unfoldable pub apply : Fees String → Trade → Option ProviderFee → Quote → Result TradeError Quote
  unfolding charged_amount
  apply fees t none quote = do
    amount ← charged_amount fees.app
    raise_if (not (amount == 0)) (decode_error "unexpected app fee")
    ok quote
  apply fees t (some fee) quote = do
    amount ← charged_amount fees.app
    app ← ok_or fees.app (decode_error "missing requested app fee")
    raise_if (is_elsewhere app t)
        (decode_error "app fee is not charged in the requested SOL/USDC input")
    validate_amount fee quote amount fee.fee.bps
    ok (record quote { application_fee = amount })

  -- The list of fees in `Relay::prepare_with_fee`.
  unfoldable pub app_fees :
      Trade → Option ProviderFee → Result TradeError (List (AppFeeRequest String))
  app_fees t none = ok []
  app_fees t (some fee) = request t fee >>= λ made. ok (made ∷ [])

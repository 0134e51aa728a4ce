-- ===== src/Solana/Sources/Relay/Adapter.antt =====
-- `Relay` of `src/solana/sources/relay/mod.rs`: the adapter that asks the service.
use trading_aggregators.Prelude.{String, true, false, Option, none, some}
use trading_aggregators.Error.{TradeError}
use trading_aggregators.Action.{Action, lift, pure, map_err, AnyError, trade, ◌>>=◌, ◌>>◌}
use trading_aggregators.Floats.{Floats}
use trading_aggregators.Text.{KeyText}
use trading_aggregators.Relay.{FloatText, RelayApi, new}
use trading_aggregators.Solana.Keys.{Pubkey}
use trading_aggregators.Solana.Types.{Trade, validate, Quote, PreparedSwap}
use trading_aggregators.Solana.Common.{Platform}
use trading_aggregators.Solana.ProviderFee.{ProviderFee}
use trading_aggregators.Solana.Sources.Relay.{SolanaOptions, TransactionData, swap}
use trading_aggregators.Solana.Sources.Relay.AppFee.{app_fees}
use trading_aggregators.Solana.Sources.Relay.Response.{prepare_response}

abbrev shown : ⦃text : KeyText⦄ → Option Pubkey → Option String
shown none = none
shown ⦃text⦄ (some key) = some (text.show_key key)

module _ ⦃text : KeyText⦄ where
  abbrev options_for : Option Pubkey → SolanaOptions
  options_for payer = record {
    include_compute_unit_limit = false;
    deposit_fee_payer = shown payer;
    use_v1_transaction = true;
  }

  module _ ⦃p : Platform⦄ ⦃floats : FloatText⦄ ⦃f : Floats⦄ where
    module _ {W : Type 0} ⦃api : RelayApi String SolanaOptions TransactionData W⦄ where
      unfoldable pub prepare_with_fee :
          Trade → Option Pubkey → Option ProviderFee → Action W TradeError PreparedSwap
      prepare_with_fee t payer fee = do
        lift (validate t)
        fees ← lift (app_fees t fee)
        response ← api.quote (new (swap t) (options_for payer) fees)
        lift (prepare_response response t payer fee)

      pub quote : Trade → Action W AnyError Quote
      quote t = map_err trade (prepare_with_fee t none none) >>= λ prepared. pure prepared.quote

      pub prepare_swap : Trade → Action W AnyError PreparedSwap
      prepare_swap t = map_err trade (prepare_with_fee t none none)

      pub prepare_sponsored_swap : Trade → Pubkey → Action W AnyError PreparedSwap
      prepare_sponsored_swap t payer = map_err trade (prepare_with_fee t (some payer) none)

-- ===== src/Solana/Sources/Bloxroute/Adapter.antt =====
-- `Bloxroute` of `src/solana/sources/bloxroute.rs`: the adapter that asks the service.
use trading_aggregators.Prelude.{Option, none, some}
use trading_aggregators.Error.{TradeError}
use trading_aggregators.Action.{Action, lift, pure, map_err, AnyError, trade, ◌>>=◌, ◌>>◌}
use trading_aggregators.Floats.{Floats}
use trading_aggregators.Text.{KeyText}
use trading_aggregators.Solana.Keys.{Pubkey}
use trading_aggregators.Solana.Types.{Trade, validate, Quote, PreparedSwap}
use trading_aggregators.Solana.Common.{Platform}
use trading_aggregators.Solana.ProviderFee.{ProviderFee}
use trading_aggregators.Solana.Sources.Bloxroute.{BloxrouteApi, request_for, prepare_response}

module _ {W : Type 0} ⦃api : BloxrouteApi W⦄ ⦃text : KeyText⦄ ⦃p : Platform⦄ ⦃f : Floats⦄ where
  -- `Bloxroute::prepare_with_fee`
  unfoldable pub prepare_with_fee :
      Trade → Option Pubkey → Option ProviderFee → Action W TradeError PreparedSwap
  prepare_with_fee t payer fee = do
    lift (validate t)
    response ← api.swap_instructions (request_for t payer fee)
    lift (prepare_response response t payer fee)

  pub quote : Trade → Action W AnyError Quote
  quote t = map_err trade (prepare_with_fee t none none) >>= λ prepared. pure prepared.quote

  pub prepare_swap : Trade → Action W AnyError PreparedSwap
  prepare_swap t = map_err trade (prepare_with_fee t none none)

  pub prepare_sponsored_swap : Trade → Pubkey → Action W AnyError PreparedSwap
  prepare_sponsored_swap t sponsor = map_err trade (prepare_with_fee t (some sponsor) none)

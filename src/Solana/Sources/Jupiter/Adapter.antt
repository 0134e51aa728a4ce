-- ===== src/Solana/Sources/Jupiter/Adapter.antt =====
-- `Jupiter` of `src/solana/sources/jupiter.rs`: the adapter that asks the service.
use trading_aggregators.Prelude.{Option, none, some}
use trading_aggregators.Error.{TradeError}
use trading_aggregators.Action.{Action, lift, map_err, AnyError, trade, ◌>>=◌, ◌>>◌}
use trading_aggregators.Text.{KeyText}
use trading_aggregators.Solana.Keys.{Pubkey}
use trading_aggregators.Solana.Types.{Trade, validate, Quote, PreparedSwap}
use trading_aggregators.Solana.Sources.Jupiter.{
  JupiterApi, BuildResponse, request_for, quote_of, prepare_response,
}

module _ {W : Type 0} ⦃api : JupiterApi W⦄ ⦃text : KeyText⦄ where
  unfoldable pub build : Trade → Option Pubkey → Action W TradeError BuildResponse
  build t payer = lift (validate t) >> api.build (request_for t payer)

  unfoldable pub prepare_with_payer : Trade → Option Pubkey → Action W TradeError PreparedSwap
  prepare_with_payer t payer =
      build t payer >>= λ response. lift (prepare_response response t payer)

  pub quote : Trade → Action W AnyError Quote
  quote t = map_err trade (build t none >>= λ response. lift (quote_of response t))

  pub prepare_swap : Trade → Action W AnyError PreparedSwap
  prepare_swap t = map_err trade (prepare_with_payer t none)

  pub prepare_sponsored_swap : Trade → Pubkey → Action W AnyError PreparedSwap
  prepare_sponsored_swap t payer = map_err trade (prepare_with_payer t (some payer))

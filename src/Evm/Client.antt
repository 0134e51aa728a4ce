-- ===== src/Evm/Client.antt =====
-- `Client` of `src/evm/mod.rs`: choosing a source, preparing and executing a swap.
use trading_aggregators.Prelude.{
  ℕ, Bool, true, false, Option, none, some, ltb, ◌==◌, or_else, unwrap_or, if◌then◌else◌,
}
use trading_aggregators.Error.{TradeError, build, Result, ok, err}
use trading_aggregators.Action.{Action, pure, ◌>>=◌}
use trading_aggregators.Floats.{Floats}
use trading_aggregators.Relay.{FloatText, RelayApi}
use trading_aggregators.Evm.Types.{
  Address, AppFee, PreparedSwap, Quote, QuoteSource, relay, uniswap, SwapError, SwapResult, Trade,
  before_submission,
}
use trading_aggregators.Evm.Network.{Network}
use trading_aggregators.Evm.Node.{Provider}
use trading_aggregators.Evm.Unsigned.{Alloy}
use trading_aggregators.Evm.Relay.{AmountText}
use trading_aggregators.Evm.Relay.Transactions.{ApiTransaction}
use trading_aggregators.Evm.Relay.Adapter.{EvmOptions}
use trading_aggregators.Evm.Relay.Adapter
use trading_aggregators.Evm.Uniswap.{Abi, AmountFloats, Schedule}
use trading_aggregators.Evm.Uniswap.Quoting.{TimeOfDay}
use trading_aggregators.Evm.Uniswap.Quoting
use trading_aggregators.Evm.Execution.Running.{Signer, Submitter, execute_swap}

abbrev pub default_quote_source : QuoteSource
default_quote_source = relay

-- The client without its connections; the timeout in milliseconds.
pub record Client : Type 0 where
  pub quote_source : Option QuoteSource
  pub app_fee : Option AppFee
  pub usd_value_enabled : Bool
  pub confirmation_timeout : ℕ

abbrev pub new : Client
new = record {
  quote_source = none;
  app_fee = none;
  usd_value_enabled = true;
  confirmation_timeout = 60_000;
}

pub with_quote_source : Client → QuoteSource → Client
with_quote_source c source = record c { quote_source = some source }

unfoldable pub quote_source_for : Client → Trade → QuoteSource
quote_source_for c t = unwrap_or (or_else t.quote_source c.quote_source) default_quote_source

-- A fee of nothing is none.
unfoldable pub with_app_fee : Client → AppFee → Client
with_app_fee c fee = record c { app_fee = if ltb 0 fee.bps then some fee else none }

pub without_usd_value : Client → Client
without_usd_value c = record c { usd_value_enabled = false }

unfoldable pub with_confirmation_timeout : Client → ℕ → Result TradeError Client
with_confirmation_timeout c timeout =
    if timeout == 0
    then err (build "confirmation timeout must be positive")
    else ok (record c { confirmation_timeout = timeout })

pub chain_id : ⦃network : Network⦄ → ℕ
chain_id ⦃network⦄ = network.chain_id

abbrev shown : Client → PreparedSwap → PreparedSwap
shown c prepared =
    if c.usd_value_enabled
    then prepared
    else record prepared { quote = record (prepared.quote) { usd_value = none } }

module _ {W : Type 0} ⦃provider : Provider W⦄ ⦃network : Network⦄
    ⦃api : RelayApi Address EvmOptions ApiTransaction W⦄ ⦃text : AmountText⦄ ⦃floats : FloatText⦄
    ⦃f : Floats⦄ ⦃a : AmountFloats⦄ ⦃abi : Abi⦄ ⦃clock : TimeOfDay W⦄ ⦃schedule : Schedule⦄ where
  prepare_from : QuoteSource → Trade → Option AppFee → Action W TradeError PreparedSwap
  prepare_from relay t fee = Adapter.prepare t fee
  prepare_from uniswap t fee = Quoting.prepare t fee

  unfoldable pub prepare_swap : Client → Trade → Action W TradeError PreparedSwap
  unfolding prepare_from
  prepare_swap c t =
      prepare_from (quote_source_for c t) t c.app_fee >>= λ prepared. pure (shown c prepared)

  pub quote : Client → Trade → Action W TradeError Quote
  quote c t = prepare_swap c t >>= λ prepared. pure prepared.quote

  -- `none` is a confirmation that still runs.
  unfoldable pub swap :
      ⦃alloy : Alloy⦄
      → Client
      → Trade
      → Signer W
      → Submitter W
      → W
      → Option (Result SwapError SwapResult) × W
  swap c t signer submitter w =
      let (prepared, w') = prepare_swap c t w in
      elim prepared [
        | err e ↦ (some (err (before_submission e)), w')
        | ok p ↦ execute_swap c.confirmation_timeout p signer submitter w'
      ]

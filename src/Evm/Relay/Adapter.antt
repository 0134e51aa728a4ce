-- ===== src/Evm/Relay/Adapter.antt =====
-- `Relay::prepare` of `src/evm/sources/relay/mod.rs`: the adapter that asks the service.
use trading_aggregators.Prelude.{ℕ, Bool, false, Option, none, some, List, [], ◌∷◌}
use trading_aggregators.Error.{TradeError}
use trading_aggregators.Action.{Action, lift, pure, ◌>>=◌, ◌>>◌}
use trading_aggregators.Floats.{Floats}
use trading_aggregators.Text.{show_nat}
use trading_aggregators.Relay.{FloatText, Swap, AppFeeRequest, RelayApi, new}
use trading_aggregators.Evm.Types.{Address, AppFee, Trade, PreparedSwap, validate, address_of}
use trading_aggregators.Evm.Network.{Network}
use trading_aggregators.Evm.Node.{Provider}
use trading_aggregators.Evm.Relay.{AmountText, quote_of}
use trading_aggregators.Evm.Relay.Transactions.{ApiTransaction, decode}

pub record EvmOptions : Type 0 where
  pub use_permit : Bool
  pub subsidize_fees : Bool

abbrev options : EvmOptions
options = record { use_permit = false; subsidize_fees = false }

abbrev pub swap_for : ⦃network : Network⦄ → Trade → Swap Address
swap_for ⦃network⦄ t = record {
  wallet = t.wallet;
  chain_id = network.chain_id;
  input = address_of t.input;
  output = address_of t.output;
  amount = show_nat t.amount;
  slippage_bps = show_nat t.slippage_bps;
}

abbrev pub app_fees : Option AppFee → List (AppFeeRequest Address)
app_fees none = []
app_fees (some fee) = record { recipient = fee.recipient; fee = show_nat fee.bps } ∷ []

-- `Instant::now`
instant : {W : Type 0} → ⦃provider : Provider W⦄ → Action W TradeError ℕ
instant ⦃provider⦄ w = pure (provider.now w) w

module _ {W : Type 0} ⦃provider : Provider W⦄ ⦃api : RelayApi Address EvmOptions ApiTransaction W⦄
    ⦃network : Network⦄ ⦃text : AmountText⦄ ⦃floats : FloatText⦄ ⦃f : Floats⦄ where
  unfoldable pub prepare : Trade → Option AppFee → Action W TradeError PreparedSwap
  unfolding instant
  prepare t fee = do
    lift (validate t)
    created_at ← instant
    response ← api.quote (new (swap_for t) options (app_fees fee))
    quote ← lift (quote_of response.details response.fees (swap_for t) t fee)
    transactions ← lift (decode response.steps t)
    pure (record {
      quote = quote;
      transactions = transactions;
      wallet = t.wallet;
      created_at = created_at;
    })

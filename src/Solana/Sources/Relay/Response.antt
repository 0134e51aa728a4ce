-- ===== src/Solana/Sources/Relay/Response.antt =====
-- What `prepare_with_fee` of `src/solana/sources/relay/mod.rs` makes of Relay's response.
use trading_aggregators.Prelude.{String, Option, []}
use trading_aggregators.Error.{TradeError, Result, ok, ◌>>=◌}
use trading_aggregators.Floats.{Floats}
use trading_aggregators.Text.{KeyText}
use trading_aggregators.Relay.{venue, FloatText, QuoteResponse}
use trading_aggregators.Solana.Keys.{Pubkey}
use trading_aggregators.Solana.Types.{Trade, PreparedSwap, TransactionFormat}
use trading_aggregators.Solana.Common.{Platform}
use trading_aggregators.Solana.ProviderFee.{ProviderFee}
use trading_aggregators.Solana.Sources.Relay.{
  TransactionData, swap, quote_of, swap_data, instructions,
}
use trading_aggregators.Solana.Sources.Relay.AppFee.{apply}

unfoldable pub prepare_response :
    ⦃text : KeyText⦄
    → ⦃p : Platform⦄ → ⦃floats : FloatText⦄ → ⦃f : Floats⦄ → QuoteResponse String TransactionData
    → Trade
    → Option Pubkey
    → Option ProviderFee
    → Result TradeError PreparedSwap
prepare_response response t payer fee = do
  quoted ← quote_of response.details (swap t) t
  quote ← apply response.fees t fee quoted
  found ← swap_data response.steps
  route ← instructions found t payer
  ok (record {
    venue = venue;
    quote = quote;
    instructions = route;
    lookup_tables = [];
    format = TransactionFormat.v1;
  })

-- ===== src/Solana/Client/Options.antt =====
-- The builder methods of `TradingClient` in `src/solana/client/mod.rs`. The venues and sources that the
-- client owns are its adapters here, so that those which set their keys and URLs have no part in this.
use trading_aggregators.Prelude.{ℕ, String, true, false, Option, none, some, List, []}
use trading_aggregators.Error.{TradeError, decode, ok_or}
use trading_aggregators.Action.{Action, lift, pure, ◌>>=◌}
use trading_aggregators.Solana.Keys.{Pubkey}
use trading_aggregators.Solana.Types.{QuoteSource, SwapStatus}
use trading_aggregators.Solana.SdkFee.{SdkFee}
use trading_aggregators.Solana.GasSponsor.{GasSponsor}
use trading_aggregators.Solana.Chain.{Chain}
use trading_aggregators.Solana.Executor.Confirming.{check_status}
use trading_aggregators.Solana.LookupTables.{TableProgram, TableReads, load_address_lookup_tables}
use trading_aggregators.Solana.Client.Routing.{Client}

abbrev new : Client
new = record {
  quote_source = none;
  sdk_fee = none;
  gas_sponsor = none;
  usd_value_enabled = true;
  shared_lookup_tables = [];
}

abbrev with_sdk_fee : Client → SdkFee → Client
with_sdk_fee client charged = record client { sdk_fee = some charged }

abbrev with_gas_sponsor : Client → GasSponsor → Client
with_gas_sponsor client payer = record client { gas_sponsor = some payer }

abbrev without_usd_value : Client → Client
without_usd_value client = record client { usd_value_enabled = false }

abbrev with_quote_source : Client → QuoteSource → Client
with_quote_source client source = record client { quote_source = some source }

module _ {W : Type 0} ⦃program : TableProgram⦄ ⦃reads : TableReads W⦄ where
  abbrev with_shared_lookup_table_addresses : Client → List Pubkey → Action W TradeError Client
  with_shared_lookup_table_addresses client keys = do
    tables ← load_address_lookup_tables keys
    pure (record client { shared_lookup_tables = tables })

module _ {W : Type 0} ⦃chain : Chain W⦄ where
  -- `hash.parse::<Signature>()` is the Solana crates', and a parameter.
  abbrev status : (String → Option ℕ) → String → Action W TradeError SwapStatus
  status parse hash = do
    sig ← lift (ok_or (parse hash) (decode "client" "bad signature"))
    check_status sig

-- ===== src/Solana/Sources/DFlow/Adapter.antt =====
-- `DFlow` of `src/solana/sources/dflow.rs`: the adapter that asks the service and the node.
use trading_aggregators.Prelude.{ℕ, Bool, true, false, Option, none, some, List, ◌∷◌, unwrap_or}
use trading_aggregators.Error.{TradeError}
use trading_aggregators.Action.{Action, lift, pure, map_err, AnyError, trade, ◌>>=◌, ◌>>◌}
use trading_aggregators.Text.{KeyText}
use trading_aggregators.Solana.Keys.{Pubkey, Instruction}
use trading_aggregators.Solana.Types.{Trade, validate, Quote, PreparedSwap, TransactionFormat}
use trading_aggregators.Solana.Common.{Platform}
use trading_aggregators.Solana.ProviderFee.{ProviderFee, account, mode, setup}
use trading_aggregators.Solana.LookupTables.{TableProgram, TableReads, load_address_lookup_tables}
use trading_aggregators.Solana.Sources.{route_mints}
use trading_aggregators.Solana.Sources.DFlow.{
  venue, transaction_version, QuoteRequest, InstructionsRequest, DFlowApi, optional, quote_of,
  instructions, parse_addresses,
}

-- `sponsored.then_some(value)`
abbrev when_some : Option Pubkey → Bool → Option Bool
when_some none value = none
when_some (some payer) value = some value

abbrev rate : Option ProviderFee → ℕ
rate none = 0
rate (some fee) = fee.fee.bps

-- The fee account's creation stands before the route.
abbrev with_setup :
    ⦃p : Platform⦄
    → Pubkey
    → Option Pubkey
    → Option ProviderFee
    → List Instruction
    → List Instruction
with_setup wallet payer none route = route
with_setup wallet payer (some fee) route = setup fee (unwrap_or payer wallet) ∷ route

module _ ⦃text : KeyText⦄ ⦃p : Platform⦄ where
  pub quote_request : Trade → Option Pubkey → Option ProviderFee → QuoteRequest
  quote_request t payer fee = record {
    input_mint = text.show_key (route_mints t).0;
    output_mint = text.show_key (route_mints t).1;
    amount = t.amount;
    slippage_bps = t.slippage_bps;
    platform_fee_bps = rate fee;
    transaction_version = transaction_version;
    sponsored_swap = when_some payer true;
    sponsor_exec = when_some payer false;
    platform_fee_mode = optional mode fee;
  }

  pub instructions_request :
      {Json : Type 0} → Json → Trade → Option Pubkey → Option ProviderFee → InstructionsRequest Json
  instructions_request quote_response t payer fee = record {
    quote_response = quote_response;
    user_public_key = text.show_key t.wallet;
    wrap_and_unwrap_sol = true;
    transaction_version = transaction_version;
    dynamic_compute_unit_limit = false;
    compute_unit_price_micro_lamports = 0;
    sponsor = optional text.show_key payer;
    sponsor_exec = when_some payer false;
    fee_account = optional (λ fee. text.show_key (account fee)) fee;
  }

  module _ {Json W : Type 0} (api : DFlowApi Json W) where
    unfoldable pub fetch_quote :
        Trade → Option Pubkey → Option ProviderFee → Action W TradeError (Json × Quote)
    fetch_quote t payer fee = do
      lift (validate t)
      (raw, response) ← api.quote (quote_request t payer fee)
      checked ← lift (quote_of response t fee)
      pure (raw, checked)

    pub quote : Trade → Action W AnyError Quote
    quote t = map_err trade (fetch_quote t none none) >>= λ fetched. pure fetched.1

    module _ ⦃tables : TableProgram⦄ ⦃reads : TableReads W⦄ where
      unfoldable pub prepare_with_fee :
          Trade → Option Pubkey → Option ProviderFee → Action W TradeError PreparedSwap
      prepare_with_fee t payer fee = do
        (raw, checked) ← fetch_quote t payer fee
        response ← api.swap_instructions (instructions_request raw t payer fee)
        route ← lift (instructions response t.wallet payer)
        addresses ← lift (parse_addresses response.address_lookup_table_addresses)
        lookup_tables ← load_address_lookup_tables addresses
        pure (record {
          venue = venue;
          quote = checked;
          instructions = with_setup t.wallet payer fee route;
          lookup_tables = lookup_tables;
          format = TransactionFormat.v0;
        })

      pub prepare_swap : Trade → Action W AnyError PreparedSwap
      prepare_swap t = map_err trade (prepare_with_fee t none none)

      pub prepare_sponsored_swap : Trade → Pubkey → Action W AnyError PreparedSwap
      prepare_sponsored_swap t payer = map_err trade (prepare_with_fee t (some payer) none)

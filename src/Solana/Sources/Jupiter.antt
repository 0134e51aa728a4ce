-- ===== src/Solana/Sources/Jupiter.antt =====
-- `src/solana/sources/jupiter.rs` and the types of `src/aggregators/jupiter.rs`: Jupiter's routes.
-- The map of lookup tables is the list of its entries, in the order of its iteration.
pub mod Adapter
use trading_aggregators.Prelude.{
  ℕ, String, Bool, true, false, not, ◌&&◌, ◌||◌, Option, none, some, List, [], ◌∷◌, ◌++◌, ◌==◌,
  if◌then◌else◌, is_empty, is_some, unwrap_or,
}
use trading_aggregators.Prelude.Bytes.{codes}
use trading_aggregators.Error.{TradeError, decode, Result, ok, err, raise_if, map_err, ◌>>=◌, ◌>>◌}
use trading_aggregators.Text.{KeyText, collect, string_eq, parse_u64}
use trading_aggregators.Action.{Action}
use trading_aggregators.Solana.Keys.{Pubkey, Instruction}
use trading_aggregators.Solana.Types.{Trade, Quote, LookupTable, PreparedSwap, TransactionFormat}
use trading_aggregators.Solana.Common.{Platform}
use trading_aggregators.Solana.ProviderFee.{ProviderFee, account, mode, setup, validate_amount}
use trading_aggregators.Solana.Sources.{
  ApiInstruction, route_mints, validated_quote, decode_base64, retain_compute_budget,
}

abbrev pub venue : String
venue = "jupiter"

abbrev pub exact_input_mode : String
exact_input_mode = "ExactIn"

pub record BuildRequest : Type 0 where
  pub input_mint : String
  pub output_mint : String
  pub amount : ℕ
  pub taker : String
  pub slippage_bps : ℕ
  pub wrap_and_unwrap_sol : Bool
  pub payer : Option String

pub record BuildResponse : Type 0 where
  pub input_mint : String
  pub output_mint : String
  pub swap_mode : String
  pub in_amount : String
  pub out_amount : String
  pub other_amount_threshold : String
  pub setup_instructions : List ApiInstruction
  pub swap_instruction : ApiInstruction
  pub cleanup_instruction : Option ApiInstruction
  pub other_instructions : List ApiInstruction
  pub addresses_by_lookup_table_address : Option (List (String × List String))

pub record JupiterApi (W : Type 0) : Type 0 where
  pub build : BuildRequest → Action W TradeError BuildResponse

abbrev pub decode_error : String → TradeError
decode_error = decode venue

-- The message names the field.
unfoldable pub parse_amount : String → String → Result TradeError ℕ
parse_amount message value = map_err (λ _. decode_error message) (parse_u64 (codes value))

abbrev pub once : Option ApiInstruction → List ApiInstruction
once none = []
once (some ix) = ix ∷ []

abbrev shown : ⦃text : KeyText⦄ → Option Pubkey → Option String
shown none = none
shown ⦃text⦄ (some key) = some (text.show_key key)

module _ ⦃text : KeyText⦄ where
  unfoldable pub request_for : Trade → Option Pubkey → BuildRequest
  request_for t payer = record {
    input_mint = text.show_key (route_mints t).0;
    output_mint = text.show_key (route_mints t).1;
    amount = t.amount;
    taker = text.show_key t.wallet;
    slippage_bps = t.slippage_bps;
    wrap_and_unwrap_sol = true;
    payer = shown payer;
  }

  -- `BuildResponse::quote`
  unfoldable pub quote_of : BuildResponse → Trade → Result TradeError Quote
  quote_of response t = do
    raise_if
        (not (string_eq response.swap_mode exact_input_mode)
          || not (string_eq response.input_mint (text.show_key (route_mints t).0))
          || not (string_eq response.output_mint (text.show_key (route_mints t).1)))
        (decode_error "build response does not match the requested exact-input trade")
    input ← parse_amount "bad inAmount" response.in_amount
    expected ← parse_amount "bad outAmount" response.out_amount
    minimum ← parse_amount "bad otherAmountThreshold" response.other_amount_threshold
    validated_quote venue t input expected minimum

  -- `BuildResponse::instructions`
  unfoldable pub instructions :
      BuildResponse → Pubkey → Option Pubkey → Result TradeError (List Instruction)
  instructions response wallet payer =
      collect (λ ix. decode_base64 ix venue wallet payer)
        (response.setup_instructions
          ++ (response.swap_instruction
              ∷ (once response.cleanup_instruction ++ response.other_instructions)))

  unfoldable pub parse_address : String → Result TradeError Pubkey
  parse_address value =
      map_err (λ _. decode_error "bad lookup table address") (text.parse_key value)

  unfoldable pub lookup_table : String × List String → Result TradeError LookupTable
  lookup_table (key, addresses) = do
    table ← parse_address key
    keys ← collect parse_address addresses
    ok (record { key = table; addresses = keys })

  unfoldable pub lookup_tables :
      Option (List (String × List String)) → Result TradeError (List LookupTable)
  lookup_tables none = ok []
  lookup_tables (some tables) = collect lookup_table tables

  -- What `Jupiter::prepare_with_payer` makes of the response.
  unfoldable pub prepare_response :
      BuildResponse → Trade → Option Pubkey → Result TradeError PreparedSwap
  prepare_response response t payer = do
    quote ← quote_of response t
    route ← instructions response t.wallet payer
    tables ← lookup_tables response.addresses_by_lookup_table_address
    ok (record {
      venue = venue;
      quote = quote;
      instructions = route;
      lookup_tables = tables;
      format = TransactionFormat.v0;
    })

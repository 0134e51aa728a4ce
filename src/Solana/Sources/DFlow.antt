-- ===== src/Solana/Sources/DFlow.antt =====
-- `src/solana/sources/dflow.rs` and the types of `src/aggregators/dflow.rs`: DFlow's routes. Of a
-- JSON value that is only passed on, `Json` is the type.
pub mod Adapter
use trading_aggregators.Prelude.{
  ℕ, String, Bool, true, false, not, ◌&&◌, ◌||◌, Option, none, some, List, [], ◌∷◌, ◌++◌, ◌==◌,
  if◌then◌else◌, is_empty, is_some, unwrap_or,
}
use trading_aggregators.Prelude.Bytes.{codes}
use trading_aggregators.Error.{TradeError, decode, Result, ok, err, raise_if, map_err, ◌>>=◌, ◌>>◌}
use trading_aggregators.Text.{KeyText, collect, string_eq, parse_u64}
use trading_aggregators.Action.{Action}
use trading_aggregators.Solana.Keys.{Pubkey, Instruction}
use trading_aggregators.Solana.Types.{Trade, Quote, LookupTable, PreparedSwap, TransactionFormat}
use trading_aggregators.Solana.Common.{Platform}
use trading_aggregators.Solana.ProviderFee.{ProviderFee, account, mode, setup, validate_amount}
use trading_aggregators.Solana.Sources.{
  ApiInstruction, route_mints, validated_quote, decode_base64, retain_compute_budget,
}

abbrev pub venue : String
venue = "dflow"

abbrev pub transaction_version : String
transaction_version = "v0"

pub record QuoteRequest : Type 0 where
  pub input_mint : String
  pub output_mint : String
  pub amount : ℕ
  pub slippage_bps : ℕ
  pub platform_fee_bps : ℕ
  pub transaction_version : String
  pub sponsored_swap : Option Bool
  pub sponsor_exec : Option Bool
  pub platform_fee_mode : Option String

pub record PlatformFee : Type 0 where
  pub amount : String
  pub fee_bps : ℕ
  pub fee_account : Option String

pub record QuoteResponse (Json : Type 0) : Type 0 where
  pub input_mint : String
  pub output_mint : String
  pub in_amount : String
  pub out_amount : String
  pub min_out_amount : String
  pub other_amount_threshold : String
  pub slippage_bps : ℕ
  pub platform_fee : Option PlatformFee
  pub route_plan : List Json

pub record InstructionsRequest (Json : Type 0) : Type 0 where
  pub quote_response : Json
  pub user_public_key : String
  pub wrap_and_unwrap_sol : Bool
  pub transaction_version : String
  pub dynamic_compute_unit_limit : Bool
  pub compute_unit_price_micro_lamports : ℕ
  pub sponsor : Option String
  pub sponsor_exec : Option Bool
  pub fee_account : Option String

pub record InstructionsResponse : Type 0 where
  pub transaction_version : String
  pub compute_budget_instructions : List ApiInstruction
  pub setup_instructions : List ApiInstruction
  pub swap_instruction : ApiInstruction
  pub cleanup_instructions : List ApiInstruction
  pub other_instructions : List ApiInstruction
  pub address_lookup_table_addresses : List String

-- The service; a quote comes with the raw value it was read from.
pub record DFlowApi (Json W : Type 0) : Type 0 where
  pub quote : QuoteRequest → Action W TradeError (Json × QuoteResponse Json)
  pub swap_instructions : InstructionsRequest Json → Action W TradeError InstructionsResponse

abbrev pub decode_error : String → TradeError
decode_error = decode venue

unfoldable pub parse_amount : String → Result TradeError ℕ
parse_amount value = map_err decode_error (parse_u64 (codes value))

abbrev pub optional {ℓ κ} : {A : Type ℓ} {B : Type κ} → (A → B) → Option A → Option B
optional f none = none
optional f (some a) = some (f a)

abbrev pub is_other : Option String → String → Bool
is_other none s = false
is_other (some r) s = not (string_eq r s)

-- `fee_bps != 0 || parse_amount(amount)? != 0`: the amount is read only where the rate is 0.
unfoldable pub charges : PlatformFee → Result TradeError Bool
charges received =
    if not (received.fee_bps == 0)
    then ok true
    else parse_amount received.amount >>= λ amount. ok (not (amount == 0))

module _ ⦃text : KeyText⦄ ⦃p : Platform⦄ where
  -- The quote with the provider's fee checked, in `QuoteResponse::quote`.
  unfoldable pub with_platform_fee :
      Quote → Option ProviderFee → Option PlatformFee → Result TradeError Quote
  with_platform_fee quote (some requested) (some received) = do
    amount ← parse_amount received.amount
    raise_if (is_other received.fee_account (text.show_key (account requested)))
        (decode_error "unexpected platform fee account")
    validate_amount requested quote amount received.fee_bps
    ok (record quote { application_fee = amount })
  with_platform_fee quote (some requested) none =
      err (decode_error "missing requested platform fee")
  with_platform_fee quote none (some received) = do
    charged ← charges received
    raise_if charged (decode_error "unexpected platform fee; SDK fee is applied separately")
    ok quote
  with_platform_fee quote none none = ok quote

  -- The test before the last of the amounts is compared.
  abbrev mismatched : {Json : Type 0} → QuoteResponse Json → Trade → Bool
  mismatched response t =
      not (string_eq response.input_mint (text.show_key (route_mints t).0))
      || not (string_eq response.output_mint (text.show_key (route_mints t).1))
      || not (response.slippage_bps == t.slippage_bps)
      || is_empty response.route_plan

  -- `QuoteResponse::quote`
  unfoldable pub quote_of :
      {Json : Type 0} → QuoteResponse Json → Trade → Option ProviderFee → Result TradeError Quote
  quote_of response t fee = do
    minimum ← parse_amount response.other_amount_threshold
    raise_if (mismatched response t) (decode_error "quote does not match the requested trade")
    stated ← parse_amount response.min_out_amount
    raise_if (not (stated == minimum)) (decode_error "quote does not match the requested trade")
    input ← parse_amount response.in_amount
    expected ← parse_amount response.out_amount
    quote ← validated_quote venue t input expected minimum
    with_platform_fee quote fee response.platform_fee

module _ ⦃text : KeyText⦄ where
  -- The loop of `InstructionsResponse::instructions`: what the executor sets itself is dropped.
  unfoldable pub decode_loop :
      Pubkey → Option Pubkey → List ApiInstruction → Result TradeError (List Instruction)
  decode_loop wallet payer [] = ok []
  decode_loop wallet payer (api ∷ apis) = do
    ix ← decode_base64 api venue wallet payer
    keep ← retain_compute_budget venue ix
    rest ← decode_loop wallet payer apis
    ok (if keep then ix ∷ rest else rest)

  unfoldable pub instructions :
      InstructionsResponse → Pubkey → Option Pubkey → Result TradeError (List Instruction)
  instructions response wallet payer = do
    raise_if (not (string_eq response.transaction_version transaction_version))
        (decode_error "only v0 swap instructions are supported")
    decoded ← decode_loop wallet payer (
        response.compute_budget_instructions
        ++ (response.setup_instructions
            ++ (response.swap_instruction
                ∷ (response.cleanup_instructions ++ response.other_instructions))))
    raise_if (is_empty decoded || is_empty (codes response.swap_instruction.payload))
        (decode_error "missing swap instruction")
    ok decoded

  unfoldable pub parse_addresses : List String → Result TradeError (List Pubkey)
  parse_addresses addresses = collect (λ key. map_err decode_error (text.parse_key key)) addresses

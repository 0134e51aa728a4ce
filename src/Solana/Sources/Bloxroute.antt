-- ===== src/Solana/Sources/Bloxroute.antt =====
-- `src/solana/sources/bloxroute.rs` and the types of `src/aggregators/bloxroute.rs`: routes of
-- bloXroute's API, whose answer is a parameter.
pub mod Adapter
use trading_aggregators.Prelude.{
  ℕ, ◌-◌, String, Bool, true, false, not, ◌&&◌, ◌||◌, Option, none, some, List, [], ◌∷◌, ◌++◌, ◌==◌,
  if◌then◌else◌, any, is_empty, is_some, unwrap_or,
}
use trading_aggregators.Error.{TradeError, decode, Result, ok, err, raise_if, ◌>>=◌, ◌>>◌}
use trading_aggregators.Action.{Action}
use trading_aggregators.Floats.{F64, Floats}
use trading_aggregators.Text.{KeyText, collect, string_eq}
use trading_aggregators.Solana.Keys.{Pubkey, Instruction, compute_budget_program}
use trading_aggregators.Solana.Types.{Trade, validate, Quote, PreparedSwap, TransactionFormat}
use trading_aggregators.Solana.Common.{Platform}
use trading_aggregators.Solana.ProviderFee.{ProviderFee, account, mode, setup, validate_amount}
use trading_aggregators.Solana.Client.UsdValues.{from_reported}
use trading_aggregators.Solana.Sources.{
  ApiInstruction, TransactionConfig, route_mints, validated_quote, decode_base64, instructions,
}
use trading_aggregators.Solana.Sources.Rent.{move_rent_to_sponsor}

abbrev pub venue : String
venue = "bloxroute"

-- The program `BLXJD1miMgFTjCNR9B9KRPnhXMQZQaANvC7EGRVeTphD`.
abbrev pub program : Pubkey
program = 0x99952944152f42ab00c6dd86f2cef86fe7d4e1026b223b70e3a79c8fe6715c18

abbrev pub max_v1_accounts : ℕ
max_v1_accounts = 64

abbrev pub sdk_extra_accounts : ℕ
sdk_extra_accounts = 3

abbrev pub sponsor_extra_accounts : ℕ
sponsor_extra_accounts = 2

pub record InstructionsRequest : Type 0 where
  pub input_mint : String
  pub output_mint : String
  pub amount : ℕ
  pub payer : String
  pub slippage_bps : ℕ
  pub wrap_unwrap_sol : Bool
  pub priority_fee : ℕ
  pub platform_fee_bps : Option ℕ
  pub platform_fee_mode : Option String
  pub platform_fee_account : Option String
  pub max_accounts : ℕ
  pub fee_payer : Option String

pub record PlatformFee : Type 0 where
  pub amount : ℕ
  pub bps : ℕ
  pub mint : Option String
  pub mode : Option String

pub record InstructionsResponse : Type 0 where
  pub input_mint : String
  pub output_mint : String
  pub input_amount : ℕ
  pub output_amount : ℕ
  pub output_amount_min : ℕ
  pub input_value_usd : Option F64
  pub output_value_usd : Option F64
  pub platform_fee : Option PlatformFee
  pub transaction_config : TransactionConfig
  pub setup_instructions : List ApiInstruction
  pub swap_instruction : ApiInstruction

-- The service behind the HTTP client.
pub record BloxrouteApi (W : Type 0) : Type 0 where
  pub swap_instructions : InstructionsRequest → Action W TradeError InstructionsResponse

abbrev pub decode_error : String → TradeError
decode_error = decode venue

pub max_accounts : Option Pubkey → ℕ
max_accounts payer =
    max_v1_accounts - sdk_extra_accounts - (if is_some payer then sponsor_extra_accounts else 0)

abbrev pub option_eq : Option String → String → Bool
option_eq none s = false
option_eq (some r) s = string_eq r s

abbrev pub optional {ℓ κ} : {A : Type ℓ} {B : Type κ} → (A → B) → Option A → Option B
optional f none = none
optional f (some a) = some (f a)

module _ ⦃text : KeyText⦄ ⦃p : Platform⦄ where
  unfoldable pub request_for : Trade → Option Pubkey → Option ProviderFee → InstructionsRequest
  request_for t payer fee = record {
    input_mint = text.show_key (route_mints t).0;
    output_mint = text.show_key (route_mints t).1;
    amount = t.amount;
    payer = text.show_key t.wallet;
    slippage_bps = t.slippage_bps;
    wrap_unwrap_sol = true;
    priority_fee = 0;
    platform_fee_bps = optional (λ fee. fee.fee.bps) fee;
    platform_fee_mode = optional mode fee;
    platform_fee_account = optional (λ fee. text.show_key (account fee)) fee;
    max_accounts = max_accounts payer;
    fee_payer = optional text.show_key payer;
  }

  -- The quote with the provider's fee checked, in `InstructionsResponse::prepare_with_fee`.
  unfoldable pub with_platform_fee :
      Quote → Option ProviderFee → Option PlatformFee → Result TradeError Quote
  with_platform_fee quote (some requested) (some received) = do
    raise_if
        (not (option_eq received.mint (text.show_key requested.mint))
          || not (option_eq received.mode (mode requested)))
        (decode_error "provider fee mint or side does not match settlement")
    validate_amount requested quote received.amount received.bps
    ok (record quote { application_fee = received.amount })
  with_platform_fee quote (some requested) none =
      err (decode_error "missing requested platform fee")
  with_platform_fee quote none (some received) =
      raise_if (not (received.amount == 0) || not (received.bps == 0))
        (decode_error "unexpected platform fee; SDK fee is collected separately")
      >> ok quote
  with_platform_fee quote none none = ok quote

  abbrev rent_moved : Instruction → Pubkey → Option Pubkey → Result TradeError Instruction
  rent_moved ix wallet none = ok ix
  rent_moved ix wallet (some payer) = move_rent_to_sponsor venue ix wallet payer

  -- One setup instruction.
  unfoldable pub setup_instruction :
      Pubkey → Option Pubkey → ApiInstruction → Result TradeError Instruction
  setup_instruction wallet payer api = do
    ix ← decode_base64 api venue wallet payer
    raise_if (ix.program_id == compute_budget_program)
        (decode_error "unexpected compute budget in setup instructions")
    rent_moved ix wallet payer

  unfoldable pub swap_instruction :
      Pubkey → Option Pubkey → ApiInstruction → Result TradeError Instruction
  swap_instruction wallet payer api = do
    swap ← decode_base64 api venue wallet payer
    raise_if
        (not (swap.program_id == program)
          || is_empty swap.bytes
          || not (any (λ account. account.pubkey == wallet && account.is_signer) swap.accounts))
        (decode_error "invalid bloXroute swap instruction or owner")
    ok swap

  abbrev pub fee_setup : Pubkey → Option Pubkey → Option ProviderFee → List Instruction
  fee_setup wallet payer none = []
  fee_setup wallet payer (some fee) = setup fee (unwrap_or payer wallet) ∷ []

  -- `InstructionsResponse::prepare_with_fee`
  unfoldable pub prepare_response :
      ⦃f : Floats⦄
      → InstructionsResponse
      → Trade
      → Option Pubkey
      → Option ProviderFee
      → Result TradeError PreparedSwap
  prepare_response response t payer fee = do
    raise_if
        (not (string_eq response.input_mint (text.show_key (route_mints t).0))
          || not (string_eq response.output_mint (text.show_key (route_mints t).1)))
        (decode_error "response mints do not match the requested trade")
    checked ←
        validated_quote venue t response.input_amount response.output_amount
          response.output_amount_min
    quote ←
        with_platform_fee
          (record checked {
            usd_value = from_reported response.input_value_usd response.output_value_usd;
          })
          fee response.platform_fee
    configured ← instructions response.transaction_config venue
    setups ← collect (setup_instruction t.wallet payer) response.setup_instructions
    swap ← swap_instruction t.wallet payer response.swap_instruction
    ok (record {
      venue = venue;
      quote = quote;
      instructions = configured ++ (fee_setup t.wallet payer fee ++ (setups ++ (swap ∷ [])));
      lookup_tables = [];
      format = TransactionFormat.v1;
    })

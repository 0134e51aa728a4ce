-- ===== src/Solana/Sources/Relay.antt =====
-- `src/solana/sources/relay/`: Relay's atomic swaps on Solana.
pub mod AppFee
pub mod Response
pub mod Safe
mod Tests
pub mod Adapter
use trading_aggregators.Prelude.{
  ℕ, String, Bool, true, false, not, ◌&&◌, ◌||◌, Option, none, some, List, [], ◌∷◌, ◌++◌, ◌==◌,
  if◌then◌else◌, any, is_empty,
}
use trading_aggregators.Prelude.Bytes.{codes}
use trading_aggregators.Error.{
  TradeError, build, Result, ok, err, raise_if, map_err, ok_or, ◌>>=◌, ◌>>◌,
}
use trading_aggregators.Floats.{Floats}
use trading_aggregators.Text.{KeyText, string_eq, parse_u64, show_nat}
use trading_aggregators.Relay.{
  venue, decode_error, Equality, FloatText, Swap, AppFeeRequest, Details, Fees, CurrencyAmount,
  Step, StepItem, matches, usd_value,
}
use trading_aggregators.Solana.Keys.{Pubkey, AccountMeta, Instruction, usdc_mint}
use trading_aggregators.Solana.Types.{Side, buy, sell, is_buy, Settlement, sol, usdc, Trade, Quote}
use trading_aggregators.Solana.Common.{Platform}
use trading_aggregators.Solana.ProviderFee.{ProviderFee, validate_amount}
use trading_aggregators.Solana.Sources.{
  ApiInstruction, TransactionConfig, validated_quote, decode_hex, retain_compute_budget,
}
use trading_aggregators.Solana.Sources
use trading_aggregators.Solana.Sources.Rent.{move_rent_to_sponsor}

abbrev pub solana_chain_id : ℕ
solana_chain_id = 792_703_809

abbrev pub native_sol : String
native_sol = "11111111111111111111111111111111"

abbrev pub v1_version : ℕ
v1_version = 1

pub record SolanaOptions : Type 0 where
  pub include_compute_unit_limit : Bool
  pub deposit_fee_payer : Option String
  pub use_v1_transaction : Bool

-- A configuration that the response leaves out is one of `none`s.
pub record TransactionData : Type 0 where
  pub chain_id : Option ℕ
  pub instructions : List ApiInstruction
  pub transaction_version : Option ℕ
  pub transaction_config : TransactionConfig

instance abbrev pub string_equality : Equality String
string_equality = record { eq = string_eq }

abbrev pub parse_amount : String → Result TradeError ℕ
parse_amount value = map_err decode_error (parse_u64 (codes value))

settlement_text : ⦃text : KeyText⦄ → Settlement → String
settlement_text sol = native_sol
settlement_text ⦃text⦄ usdc = text.show_key usdc_mint

module _ ⦃text : KeyText⦄ where
  unfoldable pub currencies : Trade → String × String
  unfolding settlement_text
  currencies t =
      if is_buy t.side
      then (settlement_text t.settlement, text.show_key t.mint)
      else (text.show_key t.mint, settlement_text t.settlement)

  unfoldable pub swap : Trade → Swap String
  swap t = record {
    wallet = text.show_key t.wallet;
    chain_id = solana_chain_id;
    input = (currencies t).0;
    output = (currencies t).1;
    amount = show_nat t.amount;
    slippage_bps = show_nat t.slippage_bps;
  }

  unfoldable pub quote_of :
      ⦃floats : FloatText⦄
      → ⦃f : Floats⦄ → Details String
      → Swap String
      → Trade
      → Result TradeError Quote
  quote_of details requested t = do
    raise_if (not (matches details requested))
        (decode_error "quote does not match the requested wallet, currencies or chain")
    input ← parse_amount details.currency_in.amount
    expected ← parse_amount details.currency_out.amount
    minimum ← parse_amount details.currency_out.minimum_amount
    quote ← validated_quote venue t input expected minimum
    ok (record quote { usd_value = usd_value details })

-- The one item of the one step, `swap_data`.
step_item :
    List (Step TransactionData)
    → Result TradeError (Step TransactionData × StepItem TransactionData)
step_item (step ∷ []) = elim step.items [
  | [] ↦ err (decode_error "expected one swap transaction")
  | item ∷ others ↦ elim others [
    | [] ↦ ok (step, item)
    | _ ∷ _ ↦ err (decode_error "expected one swap transaction")
  ]
]
step_item _ = err (decode_error "expected one atomic swap step")

unfoldable pub swap_data : List (Step TransactionData) → Result TradeError TransactionData
unfolding step_item
swap_data steps = do
  (step, item) ← step_item steps
  raise_if
      (not (string_eq step.id "swap")
        || not (string_eq step.kind "transaction")
        || not (string_eq item.status "incomplete"))
      (decode_error "only an unexecuted same-chain swap transaction is supported")
  ok_or item.content (decode_error "missing executable swap data")

abbrev pub other_chain : Option ℕ → Bool
other_chain none = false
other_chain (some id) = not (id == solana_chain_id)

abbrev pub is_v1 : Option ℕ → Bool
is_v1 none = false
is_v1 (some version) = version == v1_version

abbrev pub signs : Pubkey → Instruction → Bool
signs wallet ix = any (λ account. account.is_signer && account.pubkey == wallet) ix.accounts

module _ ⦃text : KeyText⦄ ⦃p : Platform⦄ where
  abbrev pub rent_moved : Instruction → Pubkey → Option Pubkey → Result TradeError Instruction
  rent_moved ix wallet none = ok ix
  rent_moved ix wallet (some payer) = move_rent_to_sponsor venue ix wallet payer

  unfoldable pub decode_loop :
      Pubkey → Option Pubkey → List ApiInstruction → Result TradeError (List Instruction)
  decode_loop wallet payer [] = ok []
  decode_loop wallet payer (api ∷ apis) = do
    decoded ← decode_hex api venue wallet payer
    moved ← rent_moved decoded wallet payer
    keep ← retain_compute_budget venue moved
    rest ← decode_loop wallet payer apis
    ok (if keep then moved ∷ rest else rest)

  -- `TransactionData::instructions`
  unfoldable pub instructions :
      TransactionData → Trade → Option Pubkey → Result TradeError (List Instruction)
  instructions found t payer = do
    raise_if (other_chain found.chain_id) (decode_error "transaction is not on Solana")
    raise_if (not (is_v1 found.transaction_version))
        (decode_error "transaction version does not match the request")
    decoded ← decode_loop t.wallet payer found.instructions
    raise_if (is_empty decoded || not (any (signs t.wallet) decoded))
        (decode_error "missing swap instructions or trading wallet signer")
    configured ← Sources.instructions found.transaction_config venue
    ok (decoded ++ configured)

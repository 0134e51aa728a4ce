-- ===== src/Evm/Relay/Transactions.antt =====
-- `src/evm/sources/relay/transactions.rs`: an optional approval and one swap, checked before they
-- reach a signer.
pub mod Safe
pub mod Decoded
use trading_aggregators.Prelude.{
  ℕ, zero, suc, ◌+◌, String, Bool, true, false, not, ◌&&◌, ◌||◌, Option, none, some, List, [], ◌∷◌,
  ◌++◌, ltb, leb, ◌==◌, if◌then◌else◌, any, is_empty, is_some, length, take, drop,
}
use trading_aggregators.Prelude.Bytes.{codes, bytes_eq, from_be_bytes, to_be_bytes, overwrite}
use trading_aggregators.Error.{TradeError, Result, ok, err, ok_or, raise_if, map_err, ◌>>=◌, ◌>>◌}
use trading_aggregators.Text.{string_eq}
use trading_aggregators.Relay.{decode_error, Step, StepItem}
use trading_aggregators.Solana.SdkFee.{is_hex_digit}
use trading_aggregators.Evm.Types.{
  Address, Amount, Bytes, Currency, native, token, is_native, address_of, Trade, Transaction,
}
use trading_aggregators.Evm.Network.{Network}
use trading_aggregators.Evm.Relay.{AmountText, decimal_bytes}

abbrev pub approve_selector : Bytes
approve_selector = 0x09 ∷ 0x5e ∷ 0xa7 ∷ 0xb3 ∷ []

abbrev pub padding : Bytes
padding = 0 ∷ 0 ∷ 0 ∷ 0 ∷ 0 ∷ 0 ∷ 0 ∷ 0 ∷ 0 ∷ 0 ∷ 0 ∷ 0 ∷ []

-- `serde_json::Value`: a number with its `as_u64`, and a value of another kind.
pub data Json : Type 0 where
  string : String → Json
  number : Option ℕ → Json
  other : Json

pub record ApiTransaction : Type 0 where
  pub chain_id : ℕ
  pub from : Address
  pub to : Address
  pub input : Bytes
  pub value : Json
  pub gas : Option Json
  pub gas_price : Option Json
  pub max_fee_per_gas : Option Json
  pub max_priority_fee_per_gas : Option Json

module _ ⦃text : AmountText⦄ where
  abbrev hex_or_decimal : List ℕ → List ℕ → Result TradeError Amount
  hex_or_decimal hex value =
      if not (is_empty hex) && not (any (λ c. not (is_hex_digit c)) hex)
      then map_err decode_error (text.from_str_radix hex 16)
      else decimal_bytes value

  string_quantity : List ℕ → Result TradeError Amount
  string_quantity (a ∷ b ∷ hex) =
      if a == b'0' && b == b'x'
      then hex_or_decimal hex (a ∷ b ∷ hex)
      else decimal_bytes (a ∷ b ∷ hex)
  string_quantity value = decimal_bytes value

  unfoldable pub quantity : Json → Result TradeError Amount
  unfolding string_quantity
  quantity (string value) = string_quantity (codes value)
  quantity (number (some n)) = ok n
  quantity (number none) = err (decode_error "invalid numeric transaction quantity")
  quantity other = err (decode_error "invalid transaction quantity")

  unfoldable pub optional_quantity : Option Json → Result TradeError (Option Amount)
  optional_quantity none = ok none
  optional_quantity (some value) = quantity value >>= λ amount. ok (some amount)

-- `priority.zip(max).is_some_and(|(priority, max)| priority > max)`
abbrev pub exceeds : Option Amount → Option Amount → Bool
exceeds (some priority) (some cap) = ltb cap priority
exceeds _ _ = false

abbrev pub inconsistent : Transaction → Bool
inconsistent tx =
    (is_some tx.gas_price && (is_some tx.max_fee_per_gas || is_some tx.max_priority_fee_per_gas))
    || exceeds tx.max_priority_fee_per_gas tx.max_fee_per_gas

abbrev pub native_value : Trade → Amount
native_value t = if is_native t.input then t.amount else 0

abbrev pub spender_of : Bytes → Address
spender_of input = from_be_bytes (take 20 (drop 16 input))

abbrev pub allowance_of : Bytes → Amount
allowance_of input = from_be_bytes (take 32 (drop 36 input))

unfoldable pub consistent : Transaction → Result TradeError Transaction
consistent tx = do
  raise_if (inconsistent tx) (decode_error "inconsistent transaction gas prices")
  ok tx

module _ ⦃network : Network⦄ where
  abbrev pub is_relay_contract : Address → Bool
  is_relay_contract address = (address == network.router) || (address == network.approval_proxy)

  unfoldable pub validate_swap : Transaction → Trade → Result TradeError (Unit {0})
  validate_swap tx t =
      raise_if (not (is_relay_contract tx.to) || not (tx.value == native_value t))
        (decode_error "swap target or native value differs from the requested route")

  abbrev pub is_no_approval : Transaction → Trade → Bool
  is_no_approval tx t =
      is_native t.input
      || not (tx.to == address_of t.input)
      || not (tx.value == 0)
      || not (length tx.input == 68)
      || not (bytes_eq (take 4 tx.input) approve_selector)
      || not (bytes_eq (take 12 (drop 4 tx.input)) padding)

  abbrev pub is_unexpected : Bytes → Amount → Bool
  is_unexpected input amount =
      not (is_relay_contract (spender_of input))
      || (not (allowance_of input == 0) && ltb (allowance_of input) amount)

  abbrev pub bounded : Transaction → Amount → Transaction
  bounded tx amount =
      if allowance_of tx.input == 0
      then tx
      else record tx { input = overwrite tx.input 36 (to_be_bytes 32 amount) }

  -- The transaction as it stands afterwards: an allowance is cut to the trade's amount.
  unfoldable pub validate_approval : Transaction → Trade → Result TradeError Transaction
  validate_approval tx t = do
    raise_if (is_no_approval tx t) (decode_error "invalid token approval")
    raise_if (is_unexpected tx.input t.amount)
        (decode_error "unexpected approval spender or insufficient allowance")
    ok (bounded tx t.amount)

  unfoldable pub validated : Bool → Transaction → Trade → Result TradeError Transaction
  validated true tx t = validate_swap tx t >>= λ _. ok tx
  validated false tx t = validate_approval tx t

  abbrev pub is_foreign : ApiTransaction → Trade → Bool
  is_foreign api t =
      not (api.chain_id == network.chain_id)
      || not (api.from == t.wallet)
      || api.to == 0
      || ltb (length api.input) 4

abbrev is_approval : String → Bool
is_approval id = string_eq id "approve" || string_eq id "approval"

abbrev pub is_misnamed : Bool → Step ApiTransaction → Bool
is_misnamed swap step =
    not (string_eq step.kind "transaction")
    || (swap && not (string_eq step.id "swap"))
    || (not swap && not (is_approval step.id))

abbrev pub is_unsupported : Bool → Step ApiTransaction → Bool
is_unsupported swap step =
    is_misnamed swap step || is_empty step.items || ltb (if swap then 1 else 2) (length step.items)

module _ ⦃text : AmountText⦄ ⦃network : Network⦄ where
  -- `ApiTransaction::decode`
  unfoldable pub decode_transaction : ApiTransaction → Trade → Result TradeError Transaction
  decode_transaction api t = do
    raise_if (is_foreign api t)
        (decode_error "invalid transaction chain, sender, target or calldata")
    value ← quantity api.value
    gas ← optional_quantity api.gas
    gas_price ← optional_quantity api.gas_price
    max_fee ← optional_quantity api.max_fee_per_gas
    tip ← optional_quantity api.max_priority_fee_per_gas
    consistent (record {
      chain_id = api.chain_id;
      from = api.from;
      to = api.to;
      input = api.input;
      value = value;
      gas = gas;
      gas_price = gas_price;
      max_fee_per_gas = max_fee;
      max_priority_fee_per_gas = tip;
    })

  unfoldable pub decode_item :
      Bool → StepItem ApiTransaction → Trade → Result TradeError Transaction
  decode_item swap item t = do
    raise_if (not (string_eq item.status "incomplete"))
        (decode_error "transaction is not awaiting execution")
    api ← ok_or item.content (decode_error "missing transaction data")
    decoded ← decode_transaction api t
    validated swap decoded t

  -- The items of one step. A completed approval is skipped.
  unfoldable pub decode_items :
      Bool → List (StepItem ApiTransaction) → Trade → Result TradeError (List Transaction)
  decode_items swap [] t = ok []
  decode_items swap (item ∷ items) t =
      let rest = decode_items swap items t in
      let decoded = decode_item swap item t >>= λ tx. rest >>= λ txs. ok (tx ∷ txs) in
      if not swap && string_eq item.status "complete" then rest else decoded

  unfoldable pub decode_step :
      Bool → Step ApiTransaction → Trade → Result TradeError (List Transaction)
  decode_step swap step t = do
    raise_if (is_unsupported swap step)
        (decode_error "unsupported Relay step; only approvals and an atomic swap are supported")
    decode_items swap step.items t

  -- `decode`: the last of at most two steps is the swap.
  unfoldable pub decode : List (Step ApiTransaction) → Trade → Result TradeError (List Transaction)
  decode (swap ∷ []) t = decode_step true swap t
  decode (approval ∷ swap ∷ []) t = do
    approvals ← decode_step false approval t
    swaps ← decode_step true swap t
    ok (approvals ++ swaps)
  decode _ t = err (decode_error "expected optional approval followed by one same-chain swap")

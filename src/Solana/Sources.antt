-- ===== src/Solana/Sources.antt =====
-- `src/solana/sources/mod.rs` and the provider types of `src/aggregators/mod.rs`: from a provider's
-- response to instructions and a checked quote.
pub mod Accepted
pub mod Rent
pub mod Signers
pub mod Bloxroute
pub mod DFlow
pub mod Jupiter
pub mod Relay
use trading_aggregators.Prelude.{
  ℕ, ◌+◌, ◌-◌, ◌*◌, ◌/◌, ◌%◌, String, Bool, true, false, not, ◌&&◌, ◌||◌, Option, none, some, List,
  [], ◌∷◌, ◌++◌, ltb, leb, ◌==◌, if◌then◌else◌, any, length, get_elem?, set, map,
}
use trading_aggregators.Prelude.Words.{mul_u128}
use trading_aggregators.Prelude.Bytes.{codes, bytes_eq, to_le_bytes}
use trading_aggregators.Error.{TradeError, decode, Result, ok, err, raise_if, map_err, ◌>>=◌, ◌>>◌}
use trading_aggregators.Text.{KeyText, collect}
use trading_aggregators.Solana.Keys.{
  Pubkey, AccountMeta, Instruction, writable, system_program, ata_program, compute_budget_program,
  request_heap_frame, tag_compute_unit_limit, tag_compute_unit_price,
  tag_loaded_accounts_data_size_limit, ata_create, ata_create_idempotent,
}
use trading_aggregators.Solana.Types.{
  basis_points, Side, buy, sell, settlement_mint, Trade, validate, Quote,
}
use trading_aggregators.Solana.Common.{Platform, ata, set_compute_unit_limit, system_transfer}
use trading_aggregators.Solana.SdkFee.{is_hex_digit}

pub record ApiAccount : Type 0 where
  pub pubkey : String
  pub is_signer : Bool
  pub is_writable : Bool

pub record ApiInstruction : Type 0 where
  pub program_id : String
  pub accounts : List ApiAccount
  pub payload : String

pub record TransactionConfig : Type 0 where
  pub compute_unit_limit : Option ℕ
  pub loaded_accounts_data_size_limit : Option ℕ
  pub heap_size : Option ℕ
  pub priority_fee : Option ℕ

mints_of : Side → Pubkey → Pubkey → Pubkey × Pubkey
mints_of buy settlement mint = (settlement, mint)
mints_of sell settlement mint = (mint, settlement)

unfoldable pub route_mints : Trade → Pubkey × Pubkey
unfolding mints_of
route_mints t = mints_of t.side (settlement_mint t.settlement) t.mint

abbrev pub slippage_floor : ℕ → ℕ → ℕ
slippage_floor expected bps = mul_u128 expected (basis_points - bps) / basis_points

abbrev pub quote_of : ℕ → ℕ → ℕ → Quote
quote_of input expected minimum = record {
  in_amount = input;
  usd_value = none;
  expected_out = expected;
  min_out = minimum;
  fee = 0;
  application_fee = 0;
  sponsorship_fee = 0;
}

unfoldable pub validated_quote : String → Trade → ℕ → ℕ → ℕ → Result TradeError Quote
validated_quote venue t input expected minimum = do
  validate t
  raise_if
      (not (input == t.amount)
        || minimum == 0
        || ltb expected minimum
        || ltb minimum (slippage_floor expected t.slippage_bps))
      (decode venue "invalid input, minimum output or slippage")
  ok (quote_of input expected minimum)

-- A route asks nobody but the wallet and the payer to sign.
abbrev pub is_payer : Pubkey → Option Pubkey → Bool
is_payer key none = false
is_payer key (some payer) = key == payer

hex_value : ℕ → ℕ
hex_value c = if leb c b'9' then c - b'0' else (if leb c b'F' then c - b'A' + 10 else c - b'a' + 10)

pub hex_bytes : List ℕ → List ℕ
unfolding hex_value
hex_bytes (a ∷ b ∷ cs) = (hex_value a * 16 + hex_value b) ∷ hex_bytes cs
hex_bytes _ = []

-- Bytes as pairs of hex digits.
pub is_hex : List ℕ → Bool
is_hex text = length text % 2 == 0 && not (any (λ c. not (is_hex_digit c)) text)

module _ ⦃text : KeyText⦄ where
  abbrev pub parse_key : String → String → Result TradeError Pubkey
  parse_key venue key = map_err (decode venue) (text.parse_key key)

  -- One account of `ApiInstruction::decode`.
  unfoldable pub decode_account :
      String → Pubkey → Option Pubkey → ApiAccount → Result TradeError AccountMeta
  decode_account venue wallet payer account = do
    key ← parse_key venue account.pubkey
    raise_if (account.is_signer && (not (key == wallet) && not (is_payer key payer)))
        (decode venue "route requires an additional signer")
    ok (record { pubkey = key; is_signer = account.is_signer; is_writable = account.is_writable })

  -- `ApiInstruction::decode`
  unfoldable pub decode_with :
      ApiInstruction → String → Pubkey → Option Pubkey → List ℕ → Result TradeError Instruction
  decode_with ix venue wallet payer bytes = do
    accounts ← collect (decode_account venue wallet payer) ix.accounts
    program_id ← parse_key venue ix.program_id
    ok (record { program_id = program_id; accounts = accounts; bytes = bytes })

  unfoldable pub decode_base64 :
      ApiInstruction → String → Pubkey → Option Pubkey → Result TradeError Instruction
  decode_base64 ix venue wallet payer =
      map_err (decode venue) (text.decode_base64 ix.payload) >>= λ bytes.
      decode_with ix venue wallet payer bytes

  unfoldable pub decode_hex :
      ApiInstruction → String → Pubkey → Option Pubkey → Result TradeError Instruction
  unfolding hex_bytes
  decode_hex ix venue wallet payer = do
    raise_if (not (is_hex (codes ix.payload))) (decode venue "invalid hex instruction data")
    decode_with ix venue wallet payer (hex_bytes (codes ix.payload))

unfoldable pub budget : ℕ → ℕ → Instruction
budget kind value = record {
  program_id = compute_budget_program;
  accounts = [];
  bytes = kind ∷ to_le_bytes 4 value;
}

-- `is_some_and` of a test that a value is out of a range, from 1 to a maximum or another bound.
abbrev pub outside : Option ℕ → ℕ → ℕ → Bool
outside none lo hi = false
outside (some n) lo hi = ltb n lo || ltb hi n

abbrev pub listed : Option ℕ → (ℕ → Instruction) → List Instruction
listed none build = []
listed (some n) build = build n ∷ []

unfoldable pub heap_instructions : String → Option ℕ → Result TradeError (List Instruction)
heap_instructions venue none = ok []
heap_instructions venue (some heap) =
    raise_if ((ltb heap 32_768 || ltb 262_144 heap) || not (heap % 1024 == 0))
      (decode venue "invalid heap size")
    >> ok (budget request_heap_frame heap ∷ [])

abbrev pub is_unsupported : TransactionConfig → Bool
is_unsupported config =
    outside config.compute_unit_limit 1 1_400_000
    || outside config.loaded_accounts_data_size_limit 1 67_108_864
    || outside config.priority_fee 0 0

-- `TransactionConfig::instructions`
unfoldable pub instructions : TransactionConfig → String → Result TradeError (List Instruction)
unfolding heap_instructions
instructions config venue = do
  raise_if (is_unsupported config) (decode venue "unsupported transaction configuration")
  heap ← heap_instructions venue config.heap_size
  ok (
      listed config.compute_unit_limit set_compute_unit_limit
      ++ (listed config.loaded_accounts_data_size_limit (budget tag_loaded_accounts_data_size_limit)
          ++ heap))

-- What `retain_compute_budget` says of a budget instruction's tag and the length of its value.
retained : String → ℕ → ℕ → Result TradeError Bool
retained venue tag size =
    if (tag == tag_compute_unit_limit && size == 4) || (tag == tag_compute_unit_price && size == 8)
    then ok false
    else (if (tag == request_heap_frame || tag == tag_loaded_accounts_data_size_limit) && size == 4
        then ok true
        else err (decode venue "unsupported compute-budget instruction"))

retained_bytes : String → List ℕ → Result TradeError Bool
unfolding retained
retained_bytes venue [] = err (decode venue "unsupported compute-budget instruction")
retained_bytes venue (tag ∷ value) = retained venue tag (length value)

unfoldable pub retain_compute_budget : String → Instruction → Result TradeError Bool
unfolding retained_bytes
retain_compute_budget venue ix =
    if ix.program_id == compute_budget_program then retained_bytes venue ix.bytes else ok true

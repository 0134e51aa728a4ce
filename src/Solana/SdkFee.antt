-- ===== src/Solana/SdkFee.antt =====
-- `src/solana/sdk_fee.rs`: the SDK fee in the trade's settlement currency.
mod Tests
pub mod Charges
pub mod Transfers
use trading_aggregators.Prelude.{
  ℕ, ◌+◌, ◌/◌, ◌%◌, ◌^◌, ◌≡◌, Bool, true, false, not, ◌&&◌, ◌||◌, Option, none, some, String, List,
  [], ◌∷◌, ◌++◌, ltb, leb, ◌==◌, if◌then◌else◌, length, any,
}
use trading_aggregators.Prelude.Bytes.{codes}
use trading_aggregators.Prelude.Words.{as_u64, sub_u64, mul_u128}
use trading_aggregators.Error.{TradeError, build, Result, ok, err, raise_if, map_err, ◌>>=◌, ◌>>◌}
use trading_aggregators.Solana.Keys.{Pubkey, Instruction, default_key, token_program, usdc_mint}
use trading_aggregators.Solana.Types.{
  basis_points, Side, buy, sell, is_buy, Settlement, sol, usdc, Trade, validate, Quote,
  PreparedSwap,
}
use trading_aggregators.Solana.Common.{Platform, ata, create_ata_idempotent, system_transfer}

abbrev pub usdc_decimals : ℕ
usdc_decimals = 6

pub data FeeCollection : Type 0 where
  sdk provider : FeeCollection

pub record SdkFee : Type 0 where
  pub recipient : Pubkey
  pub bps : ℕ
  pub collection : FeeCollection
  pub relay_fee_recipient : Option String

-- `SdkFee::new`
pub new : Pubkey → ℕ → Result TradeError SdkFee
new recipient bps =
    if recipient == default_key || leb basis_points bps
    then err (build "SDK fee requires a nonzero recipient and fee below 10000 bps")
    else ok
        (record { recipient = recipient; bps = bps; collection = sdk; relay_fee_recipient = none })

pub with_collection : SdkFee → FeeCollection → SdkFee
with_collection fee collection = record fee { collection = collection }

-- `u8::is_ascii_hexdigit`
unfoldable pub is_hex_digit : ℕ → Bool
is_hex_digit c =
    (leb b'0' c && leb c b'9') || (leb b'a' c && leb c b'f') || (leb b'A' c && leb c b'F')

-- The test of `with_relay_fee_recipient`: `0x`, 40 hex digits, and one that is not `0`.
pub is_evm_address : List ℕ → Bool
unfolding is_hex_digit
is_evm_address (a ∷ b ∷ address) =
    (a == b'0' && b == b'x')
    && (length address == 40
        && (not (any (λ c. not (is_hex_digit c)) address) && any (λ c. not (c == b'0')) address))
is_evm_address _ = false

pub with_relay_fee_recipient : SdkFee → String → Result TradeError SdkFee
with_relay_fee_recipient fee recipient =
    if is_evm_address (codes recipient)
    then ok (record fee { relay_fee_recipient = some recipient })
    else err (build "Relay app fee recipient must be a nonzero EVM address (0x and 40 hex digits)")

-- `SdkFee::amount`
unfoldable pub amount : SdkFee → ℕ → ℕ
amount fee basis = as_u64 (mul_u128 basis fee.bps / basis_points)

unfoldable pub trade_after_fee : SdkFee → Trade → Result TradeError Trade
trade_after_fee fee t = do
  validate t
  raise_if (ltb 0 fee.bps && t.wallet == fee.recipient)
      (build "SDK fee recipient must differ from trading wallet")
  ok (if is_buy t.side then record t { amount = sub_u64 t.amount (amount fee t.amount) } else t)

-- The outputs net of the fee, which only a sale takes from them.
unfoldable pub net_outputs : Side → Quote → ℕ → Result TradeError Quote
net_outputs buy q application_fee = ok q
net_outputs sell q application_fee =
    if leb q.min_out application_fee
    then err (build "minimum output must exceed the sell fee calculated from expected output")
    else ok (record q {
      expected_out = sub_u64 q.expected_out application_fee;
      min_out = sub_u64 q.min_out application_fee;
    })

unfoldable pub fee_basis : Side → Trade → Quote → ℕ
fee_basis buy t q = t.amount
fee_basis sell t q = q.expected_out

unfoldable pub quote_after_fee : SdkFee → Trade → Quote → Result TradeError Quote
unfolding net_outputs fee_basis
quote_after_fee fee t q = do
  raise_if (q.min_out == 0 || ltb q.expected_out q.min_out)
      (build "SDK fee route requires a positive, valid minimum output")
  let charged = amount fee (fee_basis t.side t q)
  net_outputs t.side (record q { in_amount = t.amount; application_fee = charged }) charged

module _ ⦃p : Platform⦄ where
  -- The recipient's USDC account, if it is missing, and the transfer.
  unfoldable pub append_usdc_fee :
      List Instruction → Pubkey → Pubkey → Pubkey → ℕ → Result TradeError (List Instruction)
  append_usdc_fee instructions payer wallet recipient charge = do
    transfer ←
        map_err (λ _. build "USDC fee transfer")
          (p.transfer_checked token_program (ata wallet usdc_mint token_program) usdc_mint
            (ata recipient usdc_mint token_program) wallet [] charge usdc_decimals)
    ok (
        instructions
        ++ (create_ata_idempotent payer recipient usdc_mint token_program ∷ transfer ∷ []))

  -- The fee transfer behind a route, in the settlement currency.
  unfoldable pub with_fee_transfer :
      SdkFee
      → Trade
      → Settlement
      → List Instruction
      → Pubkey
      → ℕ
      → Result TradeError (List Instruction)
  with_fee_transfer fee t sol instructions payer charge =
      ok (instructions ++ (system_transfer t.wallet fee.recipient charge ∷ []))
  with_fee_transfer fee t usdc instructions payer charge =
      append_usdc_fee instructions payer t.wallet fee.recipient charge

  unfoldable pub apply_with_payer :
      SdkFee → Trade → PreparedSwap → Pubkey → Result TradeError PreparedSwap
  apply_with_payer fee t prepared payer = do
    q ← quote_after_fee fee t prepared.quote
    instructions ←
        (if ltb 0 q.application_fee
          then with_fee_transfer fee t t.settlement prepared.instructions payer q.application_fee
          else ok prepared.instructions)
    ok (record prepared { quote = q; instructions = instructions })

-- ===== src/Solana/Sources/Relay/Tests.antt =====
-- A purchase through Relay.
use trading_aggregators.Prelude.{
  ◌≡◌, ◌↔◌, refl, String, true, none, some, [], ◌∷◌, ◌==◌, if◌then◌else◌, arith,
}
use trading_aggregators.Prelude.Words.{mul_u128}
use trading_aggregators.Error.{ok}
use trading_aggregators.Text.{KeyText, string_eq, parse_u64, parse_digits}
use trading_aggregators.Relay.{FloatText, QuoteResponse, CurrencyAmount, matches, usd_value}
use trading_aggregators.Solana.Keys.{writable}
use trading_aggregators.Solana.Types.{buy, sol, Trade, PreparedSwap, TransactionFormat, validate}
use trading_aggregators.Solana.Samples.{sample_platform, sample_floats}
use trading_aggregators.Solana.SdkFee.{is_hex_digit}
use trading_aggregators.Solana.Sources.{
  ApiInstruction, TransactionConfig, validated_quote, quote_of, decode_account, decode_with,
  decode_hex, retain_compute_budget, heap_instructions,
}
use trading_aggregators.Solana.Sources
use trading_aggregators.Solana.Sources.Accepted.{IsAllowed, validated_quote-IsAllowed}
use trading_aggregators.Solana.Sources.Relay
use trading_aggregators.Solana.Sources.Relay.{
  TransactionData, swap, swap_data, currencies, decode_loop, instructions,
}
use trading_aggregators.Solana.Sources.Relay.AppFee.{apply, charged_amount}
use trading_aggregators.Solana.Sources.Relay.Response.{prepare_response}
use trading_aggregators.Solana.Sources.Relay.Safe.{
  IsRoute, HasAllowedAmounts, prepare_response-IsRoute,
}

-- Texts of three addresses.
instance abbrev sample_text : KeyText
sample_text = record {
  parse_key = λ text.
      if string_eq text "wallet" then ok 11 else (if string_eq text "mint" then ok 12 else ok 40);
  show_key = λ key. if key == 11 then "wallet" else (if key == 12 then "mint" else "program");
  decode_base64 = λ text. ok [];
}

instance abbrev no_floats : FloatText
no_floats = record { parse_f64 = λ text. none }

abbrev a_trade : Trade
a_trade = record {
  settlement = sol;
  wallet = 11;
  mint = 12;
  side = buy;
  amount = 1_000;
  slippage_bps = 100;
  venue = none;
  pool = none;
  quote_source = none;
}

abbrev amount_of : String → String → String → CurrencyAmount String
amount_of address amount minimum = record {
  currency = record { chain_id = 792_703_809; address = address };
  amount = amount;
  minimum_amount = minimum;
  amount_usd = none;
}

abbrev route_instruction : ApiInstruction
route_instruction = record {
  program_id = "program";
  accounts = record { pubkey = "wallet"; is_signer = true; is_writable = true } ∷ [];
  payload = "0a";
}

abbrev a_response : QuoteResponse String TransactionData
a_response = record {
  details = record {
    operation = "swap";
    sender = "wallet";
    recipient = "wallet";
    currency_in = amount_of "11111111111111111111111111111111" "1000" "1000";
    currency_out = amount_of "mint" "500" "495";
  };
  steps =
      record {
        id = "swap";
        kind = "transaction";
        items =
            record {
              status = "incomplete";
              content = some (record {
                chain_id = none;
                instructions = route_instruction ∷ [];
                transaction_version = some 1;
                transaction_config = record {
                  compute_unit_limit = none;
                  loaded_accounts_data_size_limit = none;
                  heap_size = none;
                  priority_fee = none;
                };
              });
            }
            ∷ [];
      }
      ∷ [];
  fees = record { relayer = none; app = none };
}

abbrev a_prepared : PreparedSwap
a_prepared = record {
  venue = "relay";
  quote = record (quote_of 1_000 500 495) { usd_value = usd_value a_response.details };
  instructions = record { program_id = 40; accounts = writable 11 true ∷ []; bytes = 10 ∷ [] } ∷ [];
  lookup_tables = [];
  format = TransactionFormat.v1;
}

prepare_response-IsRoute_example :
    IsRoute a_trade none a_prepared.instructions × HasAllowedAmounts a_trade a_prepared.quote
unfolding prepare_response Relay.quote_of swap currencies Relay.settlement_text matches parse_u64
    parse_digits validated_quote validate apply charged_amount swap_data Relay.step_item
    instructions decode_loop decode_hex Sources.is_hex Sources.hex_bytes Sources.hex_value
    is_hex_digit decode_with decode_account retain_compute_budget Sources.instructions
    heap_instructions mul_u128
prepare_response-IsRoute_example =
    prepare_response-IsRoute a_response a_trade none none a_prepared refl

validated_quote-IsAllowed_example :
    (validated_quote "relay" a_trade 1_000 500 495 ≡ ok (quote_of 1_000 500 495)) ↔ (
      (validate a_trade ≡ ok tt)
      × IsAllowed a_trade 1_000 500 495
      × (quote_of 1_000 500 495 ≡ quote_of 1_000 500 495))
validated_quote-IsAllowed_example =
    validated_quote-IsAllowed "relay" a_trade 1_000 500 495 (quote_of 1_000 500 495) (omega arith)

-- ===== src/Solana/SdkFee/Tests.antt =====
-- A 1% fee on concrete trades.
use trading_aggregators.Prelude.{ℕ, ◌+◌, ◌≤◌, ◌<◌, ◌≡◌, refl, none, [], ◌∷◌, if◌then◌else◌, arith}
use trading_aggregators.Prelude.Words.{mul_u128}
use trading_aggregators.Error.{ok}
use trading_aggregators.Solana.Types.{
  Side, buy, sell, is_buy, sol, Trade, Quote, validate, PreparedSwap, TransactionFormat,
}
use trading_aggregators.Solana.Samples.{sample_platform}
use trading_aggregators.Solana.Common.{system_transfer}
use trading_aggregators.Solana.SdkFee.{
  SdkFee, sdk, amount, trade_after_fee, quote_after_fee, net_outputs, fee_basis, apply_with_payer,
  with_fee_transfer,
}
use trading_aggregators.Solana.SdkFee.Charges.{
  IsValid, trade_after_fee_split, quote_after_fee_split,
}
use trading_aggregators.Solana.SdkFee.Transfers.{Collects, apply_with_payer-Collects}

abbrev one_percent : SdkFee
one_percent = record { recipient = 20; bps = 100; collection = sdk; relay_fee_recipient = none }

one_percent-IsValid : IsValid one_percent
one_percent-IsValid = record { rate = omega arith; recipient_set = omega arith }

abbrev a_trade : Side → ℕ → Trade
a_trade side amount = record {
  settlement = sol;
  wallet = 11;
  mint = 12;
  side = side;
  amount = amount;
  slippage_bps = 100;
  venue = none;
  pool = none;
  quote_source = none;
}

abbrev a_quote : ℕ → ℕ → ℕ → ℕ → Quote
a_quote input expected least fee = record {
  in_amount = input;
  usd_value = none;
  expected_out = expected;
  min_out = least;
  fee = 0;
  application_fee = fee;
  sponsorship_fee = 0;
}

abbrev a_swap : Quote → PreparedSwap
a_swap q = record {
  venue = "relay";
  quote = q;
  instructions = record { program_id = 40; accounts = []; bytes = [] } ∷ [];
  lookup_tables = [];
  format = TransactionFormat.v0;
}

-- The swap after a sale's fee of 9 lamports.
abbrev charged_swap : PreparedSwap
charged_swap = record (a_swap (a_quote 500 891 841 9)) {
  instructions =
      record { program_id = 40; accounts = []; bytes = [] } ∷ system_transfer 11 20 9 ∷ [];
}

trade_after_fee_split_example :
    ((a_trade buy 990).amount
        + (if is_buy (a_trade buy 1_000).side
            then amount one_percent (a_trade buy 1_000).amount
            else 0)
      ≡ (a_trade buy 1_000).amount)
    × (0 < (a_trade buy 990).amount)
    × ((a_trade buy 990) ≡ record (a_trade buy 1_000) { amount = (a_trade buy 990).amount })
unfolding trade_after_fee validate amount mul_u128
trade_after_fee_split_example =
    trade_after_fee_split one_percent (a_trade buy 1_000) one_percent-IsValid (omega arith) refl

quote_after_fee_split_example :
    let taken =
      if is_buy (a_trade sell 500).side then 0 else (a_quote 500 891 841 9).application_fee in
    ((a_quote 500 891 841 9).in_amount ≡ (a_trade sell 500).amount)
    × (0 < (a_quote 500 891 841 9).min_out)
    × ((a_quote 500 891 841 9).min_out ≤ (a_quote 500 891 841 9).expected_out)
    × ((a_quote 500 891 841 9).expected_out + taken ≡ (a_quote 500 900 850 0).expected_out)
    × ((a_quote 500 891 841 9).min_out + taken ≡ (a_quote 500 900 850 0).min_out)
    × ((a_quote 500 891 841 9).application_fee
        ≡ amount one_percent (
            if is_buy (a_trade sell 500).side
            then (a_trade sell 500).amount
            else (a_quote 500 900 850 0).expected_out))
    × ((a_quote 500 891 841 9).sponsorship_fee ≡ (a_quote 500 900 850 0).sponsorship_fee)
unfolding quote_after_fee net_outputs fee_basis amount mul_u128
quote_after_fee_split_example =
    quote_after_fee_split one_percent (a_trade sell 500) (a_quote 500 900 850 0) one_percent-IsValid
      (omega arith) refl

apply_with_payer-Collects_example :
    (quote_after_fee one_percent (a_trade sell 500) (a_swap (a_quote 500 900 850 0)).quote
      ≡ ok charged_swap.quote)
    × (0 < charged_swap.quote.application_fee
        → Collects
            (a_trade sell 500).settlement
            (a_trade sell 500)
            one_percent
            11
            (a_swap (a_quote 500 900 850 0)).instructions
            charged_swap.instructions
            charged_swap.quote.application_fee)
    × (charged_swap.quote.application_fee ≡ 0
        → charged_swap.instructions ≡ (a_swap (a_quote 500 900 850 0)).instructions)
    × (charged_swap.venue ≡ (a_swap (a_quote 500 900 850 0)).venue)
    × (charged_swap.format ≡ (a_swap (a_quote 500 900 850 0)).format)
unfolding apply_with_payer with_fee_transfer quote_after_fee net_outputs fee_basis amount mul_u128
apply_with_payer-Collects_example =
    apply_with_payer-Collects one_percent (a_trade sell 500) (a_swap (a_quote 500 900 850 0)) 11
      refl

-- ===== src/Solana/ProviderFee/Tests.antt =====
-- A provider's fee of 1% on a sale.
use trading_aggregators.Prelude.{◌^◌, ◌<◌, ◌≡◌, ◌↔◌, none, arith}
use trading_aggregators.Error.{ok}
use trading_aggregators.Solana.Types.{sell, Quote}
use trading_aggregators.Solana.SdkFee.{provider, amount}
use trading_aggregators.Solana.ProviderFee.{ProviderFee, validate_amount}
use trading_aggregators.Solana.ProviderFee.Amounts.{gross, validate_amount_iff}

abbrev collected_fee : ProviderFee
collected_fee = record {
  fee = record { recipient = 20; bps = 100; collection = provider; relay_fee_recipient = none };
  mint = 12;
  side = sell;
}

abbrev net_quote : Quote
net_quote = record {
  in_amount = 700;
  usd_value = none;
  expected_out = 990;
  min_out = 980;
  fee = 0;
  application_fee = 0;
  sponsorship_fee = 0;
}

validate_amount_iff_example : (validate_amount collected_fee net_quote 10 100 ≡ ok tt) ↔ (
    (100 ≡ collected_fee.fee.bps)
    × (10 ≡ amount collected_fee.fee (gross collected_fee net_quote 10))
    × (gross collected_fee net_quote 10 < 2 ^ 64))
validate_amount_iff_example = validate_amount_iff collected_fee net_quote 10 100 (omega arith)

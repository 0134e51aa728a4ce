-- ===== src/Solana/PumpFun/Quote/Tests.antt =====
-- Quotes at a concrete curve.
use trading_aggregators.Prelude.{false, ◌+◌, ◌-◌, ◌≡◌, ◌≤◌, arith}
use trading_aggregators.Solana.Types.{buy, sell}
use trading_aggregators.Solana.Common.{fee_ceil, quote_out_for_base_in}
use trading_aggregators.Solana.PumpFun.Quote.{
  Curve, FeeSettings, charged_creator_bps, sol_into_curve, compute_quote,
}
use trading_aggregators.Solana.PumpFun.Quote.Bounds.{
  IsSound, compute_quote_buy_covered, compute_quote_sell_split,
}

abbrev young_curve : Curve
young_curve = record {
  creator = 7;
  base_reserves = 1_073_000_000_000_000;
  quote_reserves = 30_000_000_000;
  real_token_reserves = 793_100_000_000_000;
  is_mayhem = false;
  is_cashback = false;
  token_program = 9;
}

abbrev curve_fees : FeeSettings
curve_fees = record {
  standard_recipient = 1;
  mayhem_recipient = 2;
  buyback_recipient = 3;
  protocol_bps = 95;
  creator_bps = 5;
}

young_curve-IsSound : IsSound young_curve curve_fees
young_curve-IsSound = record {
  base_fits = omega arith;
  quote_fits = omega arith;
  real_fits = omega arith;
  rates = omega arith;
}

compute_quote_buy_covered_example :
    let q = compute_quote young_curve curve_fees buy 1_000_000_000 100 in
    let into = sol_into_curve young_curve curve_fees 1_000_000_000 in
    (into
        + fee_ceil into curve_fees.protocol_bps
        + fee_ceil into (charged_creator_bps young_curve curve_fees)
      ≤ 1_000_000_000)
    × (into + q.fee ≡ 1_000_000_000)
    × (q.expected_out ≤ young_curve.real_token_reserves)
    × (q.expected_out ≤ young_curve.base_reserves)
    × (q.min_out ≤ q.expected_out)
compute_quote_buy_covered_example =
    compute_quote_buy_covered young_curve curve_fees 1_000_000_000 100 young_curve-IsSound
      (omega arith) (omega arith) (omega arith)

compute_quote_sell_split_example :
    let q = compute_quote young_curve curve_fees sell 1_000_000_000 100 in
    let gross =
      quote_out_for_base_in young_curve.quote_reserves young_curve.base_reserves 1_000_000_000 in
    (q.fee
      ≡ fee_ceil gross curve_fees.protocol_bps
        + fee_ceil gross (charged_creator_bps young_curve curve_fees))
    × (q.fee ≤ gross + 1)
    × (q.expected_out ≡ gross - q.fee)
    × (gross ≤ young_curve.quote_reserves)
    × (q.min_out ≤ q.expected_out)
compute_quote_sell_split_example =
    compute_quote_sell_split young_curve curve_fees 1_000_000_000 100 young_curve-IsSound
      (omega arith) (omega arith)

-- ===== src/Solana/PumpSwap/Quote/Tests.antt =====
-- Quotes at a concrete pool.
use trading_aggregators.Prelude.{false, ◌+◌, ◌≡◌, ◌≤◌, arith}
use trading_aggregators.Solana.Types.{buy, sell}
use trading_aggregators.Solana.Common.{quote_out_for_base_in}
use trading_aggregators.Solana.PumpSwap.Quote.{
  PoolState, FeeSettings, uncorrected, quote_into_pool, compute_quote,
}
use trading_aggregators.Solana.PumpSwap.Quote.Bounds.{
  IsSound, three_fees, quote_into_pool-uncorrected, pool_quote_buy_covered, pool_quote_sell_split,
}

abbrev graduated_pool : PoolState
graduated_pool = record {
  coin_creator = 7;
  base_mint = 4;
  quote_mint = 5;
  base_vault = 14;
  quote_vault = 15;
  base_reserves = 206_900_000_000_000;
  quote_reserves = 84_990_000_000;
  is_mayhem = false;
  is_cashback = false;
  base_token_program = 9;
  quote_token_program = 9;
}

abbrev pool_fees : FeeSettings
pool_fees = record {
  standard_protocol_recipient = 1;
  mayhem_protocol_recipient = 2;
  buyback_recipient = 3;
  lp_bps = 20;
  protocol_bps = 5;
  creator_bps = 5;
}

graduated_pool-IsSound : IsSound graduated_pool pool_fees
graduated_pool-IsSound = record {
  base_fits = omega arith;
  quote_fits = omega arith;
  rates = omega arith;
}

quote_into_pool-uncorrected_example :
    (quote_into_pool graduated_pool pool_fees 1_000_000_000
      ≡ uncorrected graduated_pool pool_fees 1_000_000_000)
    × (quote_into_pool graduated_pool pool_fees 1_000_000_000
          + three_fees graduated_pool pool_fees
              (quote_into_pool graduated_pool pool_fees 1_000_000_000)
        ≤ 1_000_000_000)
quote_into_pool-uncorrected_example =
    quote_into_pool-uncorrected graduated_pool pool_fees 1_000_000_000 graduated_pool-IsSound
      (omega arith)

pool_quote_buy_covered_example :
    let q = compute_quote graduated_pool pool_fees buy 1_000_000_000 100 in
    let into = quote_into_pool graduated_pool pool_fees 1_000_000_000 in
    (into + three_fees graduated_pool pool_fees into ≤ 1_000_000_000)
    × (into + q.fee ≡ 1_000_000_000)
    × (q.expected_out ≤ graduated_pool.base_reserves)
    × (q.min_out ≤ q.expected_out)
pool_quote_buy_covered_example =
    pool_quote_buy_covered graduated_pool pool_fees 1_000_000_000 100 graduated_pool-IsSound
      (omega arith) (omega arith)

pool_quote_sell_split_example :
    let q = compute_quote graduated_pool pool_fees sell 1_000_000_000 100 in
    let gross =
      quote_out_for_base_in graduated_pool.quote_reserves graduated_pool.base_reserves
        1_000_000_000 in
    (q.fee ≡ three_fees graduated_pool pool_fees gross)
    × (q.expected_out + q.fee ≡ gross)
    × (gross ≤ graduated_pool.quote_reserves)
    × (q.min_out ≤ q.expected_out)
pool_quote_sell_split_example =
    pool_quote_sell_split graduated_pool pool_fees 1_000_000_000 100 graduated_pool-IsSound
      (omega arith) (omega arith)

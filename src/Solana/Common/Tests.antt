-- ===== src/Solana/Common/Tests.antt =====
-- Pool arithmetic at concrete reserves.
use trading_aggregators.Prelude.{◌+◌, ◌-◌, ◌*◌, ◌≤◌, ◌<◌, arith}
use trading_aggregators.Solana.Common.{base_out_for_quote_in, quote_out_for_base_in, slippage_down}
use trading_aggregators.Solana.Common.Bounds.{
  buy_keeps_product, sell_keeps_product, slippage_down_bounds,
}

buy_keeps_product_example :
    let out = base_out_for_quote_in 30_000_000_000 1_000_000_000 5_000_000 in
    (30_000_000_000 * 1_000_000_000 ≤ (30_000_000_000 + 5_000_000) * (1_000_000_000 - out))
    × (1_000_000_000 * 5_000_000 < (out + 1) * (30_000_000_000 + 5_000_000))
buy_keeps_product_example =
    buy_keeps_product 30_000_000_000 1_000_000_000 5_000_000 (omega arith) (omega arith)
      (omega arith) (omega arith) (omega arith)

sell_keeps_product_example :
    let out = quote_out_for_base_in 30_000_000_000 1_000_000_000 5_000_000 in
    (30_000_000_000 * 1_000_000_000 ≤ (30_000_000_000 - out) * (1_000_000_000 + 5_000_000))
    × (30_000_000_000 * 5_000_000 < (out + 1) * (1_000_000_000 + 5_000_000))
sell_keeps_product_example =
    sell_keeps_product 30_000_000_000 1_000_000_000 5_000_000 (omega arith) (omega arith)
      (omega arith) (omega arith) (omega arith)

slippage_down_bounds_example :
    let least = slippage_down 1_000_003 250 in
    (least ≤ 1_000_003)
    × (1_000_003 * (10_000 - 250) ≤ least * 10_000)
    × (least * 10_000 < 1_000_003 * (10_000 - 250) + 10_000)
slippage_down_bounds_example = slippage_down_bounds 1_000_003 250 (omega arith) (omega arith)

-- ===== src/Solana/PumpSwap/Layout/Tests.antt =====
-- Effective reserves of a pool whose correction is negative.
use trading_aggregators.Prelude.{◌^◌, ◌≡◌, ◌<◌, ◌↔◌, arith}
use trading_aggregators.Prelude.Int.{negsuc}
use trading_aggregators.Error.{ok}
use trading_aggregators.Solana.PumpSwap.Layout.{effective_quote_reserves}
use trading_aggregators.Solana.PumpSwap.Layout.Reserves.{IsSum, effective_quote_reserves_iff}

effective_quote_reserves_iff_example :
    (effective_quote_reserves 1_000 (negsuc 99) ≡ ok 900)
    ↔ (IsSum 1_000 (negsuc 99) 900 × (900 < 2 ^ 64))
effective_quote_reserves_iff_example =
    effective_quote_reserves_iff 1_000 (negsuc 99) 900 (omega arith)

-- ===== src/Solana/PumpSwap/Layout/Reserves.antt =====
-- The quote reserves that a pool trades against.
use trading_aggregators.Prelude.{ℕ, suc, ◌+◌, ◌^◌, ◌<◌, ◌≡◌, ◌↔◌, arith}
use trading_aggregators.Prelude.Int.{ℤ, pos, negsuc}
use trading_aggregators.Error.{ok}
use trading_aggregators.Solana.PumpSwap.Layout.{effective_quote_reserves}

-- `r` is the sum of a vault balance and a signed correction.
abbrev pub IsSum : ℕ → ℤ → ℕ → Type 0
IsSum balance (pos v) r = r ≡ balance + v
IsSum balance (negsuc n) r = r + suc n ≡ balance

-- For a `u64` balance the effective reserves exist exactly when the signed sum is a `u64`, and then
-- they are that sum.
pub effective_quote_reserves_iff :
    (balance : ℕ) (v : ℤ) (r : ℕ)
    → balance < 2 ^ 64
    → (effective_quote_reserves balance v ≡ ok r) ↔ (IsSum balance v r × (r < 2 ^ 64))
unfolding effective_quote_reserves
effective_quote_reserves_iff balance (pos v) r h = ground arith
effective_quote_reserves_iff balance (negsuc n) r h = ground arith

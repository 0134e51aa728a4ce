-- ===== src/Solana/PumpSwap/SpotPrice.antt =====
-- `PoolVaults::spot_price` of `src/solana/dexes/pumpswap/mod.rs`.
use trading_aggregators.Prelude.{ℕ, List, [], ◌∷◌, ltb}
use trading_aggregators.Error.{Result, ok, ensure, ◌>>=◌, ◌>>◌}
use trading_aggregators.Action.{AnyError, other}
use trading_aggregators.Floats.{F64, Floats}
use trading_aggregators.Solana.Keys.{Pubkey}
use trading_aggregators.Solana.PumpSwap.Layout.{effective_quote_reserves}
use trading_aggregators.Solana.PumpSwap.Venue.{PoolVaults}

-- `PoolVaults::addresses`
pub addresses : PoolVaults → List Pubkey
addresses vaults = vaults.base_vault ∷ vaults.quote_vault ∷ []

-- Base units of the quote per base unit of the token, before the trade.
pub spot_price : ⦃f : Floats⦄ → PoolVaults → ℕ → ℕ → Result AnyError F64
spot_price ⦃f⦄ vaults base_balance quote_balance =
    ensure (ltb 0 base_balance) (other "pumpswap: pool has no base reserves")
    >> (effective_quote_reserves quote_balance vaults.virtual_quote_reserves >>= λ quote_reserves.
        ok (f.div (f.of_u64 quote_reserves) (f.of_u64 base_balance)))

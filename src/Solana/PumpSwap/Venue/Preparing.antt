-- ===== src/Solana/PumpSwap/Venue/Preparing.antt =====
-- The caches, and how a prepared swap relates to its quote.
use trading_aggregators.Prelude.{◌≡◌, arith}
use trading_aggregators.Error.{ok}
use trading_aggregators.Solana.Keys.{Pubkey, wsol}
use trading_aggregators.Solana.Types.{Trade, PreparedSwap, sol}
use trading_aggregators.Solana.Common.{Platform}
use trading_aggregators.Solana.Node.{AccountReads, Borsh}
use trading_aggregators.Solana.PumpSwap.Quote.{FeeSettings, PoolState}
use trading_aggregators.Solana.PumpSwap.Venue.{
  State, sol_usdc_price_accounts, load_sol_pool, quote, prepare_swap,
}

module _ {W : Type 0} ⦃p : Platform⦄ ⦃b : Borsh⦄ ⦃rpc : AccountReads W⦄ where
  -- Once the SOL/USDC vaults were read, a later call returns the same addresses and reads nothing.
  pub sol_usdc_price_accounts_once :
      (s s' : State W) {v : Pubkey × Pubkey × Pubkey}
      → sol_usdc_price_accounts s ≡ (ok v, s')
      → sol_usdc_price_accounts s' ≡ (ok v, s')
  unfolding sol_usdc_price_accounts
  sol_usdc_price_accounts_once s s' e = ground arith

  -- A pool that is loaded for a trade is priced in wrapped SOL, and the trade settles in SOL.
  pub load_sol_pool_quoted :
      (t : Trade) (s s' : State W) {address : Pubkey} {pool : PoolState} {fees : FeeSettings}
      → load_sol_pool t s ≡ (ok (address, pool, fees), s')
      → (pool.quote_mint ≡ wsol) × (t.settlement ≡ sol)
  unfolding load_sol_pool
  load_sol_pool_quoted t s s' e = ground arith

  -- A swap is prepared exactly with the quote that `quote` would give in the same state, and leaves
  -- the same state behind.
  pub pool_swap-quote :
      (t : Trade) (s s' : State W) {prepared : PreparedSwap}
      → prepare_swap t s ≡ (ok prepared, s')
      → quote t s ≡ (ok prepared.quote, s')
  unfolding quote prepare_swap
  pool_swap-quote t s s' e = ground arith

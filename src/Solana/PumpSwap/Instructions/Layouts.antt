-- ===== src/Solana/PumpSwap/Instructions/Layouts.antt =====
-- Account positions in the PumpSwap instructions.
use trading_aggregators.Prelude.{
  ◌+◌, ◌≡◌, false, true, not, ◌&&◌, some, length, get_elem?, ◌==◌, if◌then◌else◌, arith,
}
use trading_aggregators.Solana.Keys.{Pubkey, writable, default_key}
use trading_aggregators.Solana.Types.{Trade, is_buy}
use trading_aggregators.Solana.Common.{Platform}
use trading_aggregators.Solana.PumpSwap.Quote.{FeeSettings, PoolState}
use trading_aggregators.Solana.PumpSwap.Instructions.{
  swap_accounts, named_accounts, remaining_accounts, user_volume_pda,
}

module _ ⦃p : Platform⦄ where
  -- How many accounts a swap lists: nineteen named ones, two volume accounts on a buy, two fee
  -- accounts, on a cashback coin one more on a buy and two more on a sale, one for a pool with a coin
  -- creator, and two for the buyback.
  pub length-swap_accounts :
      (t : Trade) (pool_address : Pubkey) (pool : PoolState) (fees : FeeSettings)
      → length (swap_accounts t pool_address pool fees)
        ≡ 23
          + (if is_buy t.side then 2 else 0)
          + (if pool.is_cashback then (if is_buy t.side then 1 else 2) else 0)
          + (if not (pool.coin_creator == default_key) then 1 else 0)
  unfolding swap_accounts named_accounts remaining_accounts
  length-swap_accounts t pool_address pool fees = ground arith

  -- The wallet signs at position 1 of every swap, and on a sale of a cashback coin its volume
  -- accumulator stands at position 22.
  pub swap_accounts_wallet :
      (t : Trade) (pool_address : Pubkey) (pool : PoolState) (fees : FeeSettings)
      → let accounts = swap_accounts t pool_address pool fees in
        (get_elem? accounts 1 ≡ some (writable t.wallet true))
        × (pool.is_cashback && not (is_buy t.side) ≡ true
            → get_elem? accounts 22 ≡ some (writable (user_volume_pda t.wallet) false))
  unfolding swap_accounts named_accounts remaining_accounts
  swap_accounts_wallet t pool_address pool fees = (ground arith, ground arith)

-- ===== src/Evm/Uniswap/Router.antt =====
-- `src/evm/dexes/uniswap/router.rs`: the transactions of one router swap.
use trading_aggregators.Prelude.{ℕ, Option, none, some, List, [], ◌∷◌, ◌++◌, ltb, if◌then◌else◌}
use trading_aggregators.Prelude.Int.{pos}
use trading_aggregators.Error.{TradeError, Result, ok, ◌>>=◌}
use trading_aggregators.Evm.Types.{
  Address, Amount, Bytes, AppFee, PoolKey, UniswapPool, Transaction,
}
use trading_aggregators.Evm.Network.{Network}
use trading_aggregators.Evm.Uniswap.{Abi, Route, Version, RouterPool}
use trading_aggregators.Evm.Uniswap.V4.{to_abi}

pub record Swap : Type 0 where
  pub router : Address
  pub wallet : Address
  pub route : Route
  pub amount_in : Amount
  pub min_out : Amount
  pub fee : Option AppFee
  pub deadline : Amount

abbrev pub empty_key : PoolKey
empty_key = record { currency0 = 0; currency1 = 0; fee = 0; tick_spacing = pos 0; hooks = 0 }

pool_for : UniswapPool → Result TradeError RouterPool
pool_for (UniswapPool.v2 pair) =
    ok (record { version = Version.v2; pool = pair; v4_key = empty_key })
pool_for (UniswapPool.v3 pool) =
    ok (record { version = Version.v3; pool = pool; v4_key = empty_key })
pool_for (UniswapPool.v4 key) =
    to_abi key >>= λ v4_key. ok (record { version = Version.v4; pool = 0; v4_key = v4_key })

unfoldable pub router_pool : Swap → Result TradeError RouterPool
unfolding pool_for
router_pool swap = pool_for swap.route.pool

bps_of : Option AppFee → ℕ
bps_of none = 0
bps_of (some fee) = fee.bps

unfoldable pub fee_bps : Swap → ℕ
unfolding bps_of
fee_bps swap = bps_of swap.fee

module _ ⦃network : Network⦄ where
  unfoldable pub transaction : Swap → Address → Bytes → Amount → Transaction
  transaction swap to input value = record {
    chain_id = network.chain_id;
    from = swap.wallet;
    to = to;
    input = input;
    value = value;
    gas = none;
    gas_price = none;
    max_fee_per_gas = none;
    max_priority_fee_per_gas = none;
  }

  module _ ⦃abi : Abi⦄ where
    unfoldable pub buy_transaction : Swap → Result TradeError Transaction
    buy_transaction swap = router_pool swap >>= λ pool. ok (
        transaction swap swap.router
          (abi.buy pool swap.route.token swap.min_out (fee_bps swap) swap.deadline) swap.amount_in)

    unfoldable pub sell_transaction : Swap → Result TradeError Transaction
    sell_transaction swap = router_pool swap >>= λ pool. ok (
        transaction swap swap.router
          (abi.sell pool swap.route.token swap.amount_in swap.min_out (fee_bps swap) swap.deadline)
          0)

    -- An approval of exactly the amount, where the allowance is short.
    unfoldable pub approvals : Swap → Amount → List Transaction
    approvals swap allowance =
        if ltb allowance swap.amount_in
        then transaction swap swap.route.token (abi.approve swap.router swap.amount_in) 0 ∷ []
        else []

    -- What `sell_with_approval` sends for an allowance.
    unfoldable pub sell_transactions : Swap → Amount → Result TradeError (List Transaction)
    sell_transactions swap allowance =
        sell_transaction swap >>= λ tx. ok (approvals swap allowance ++ (tx ∷ []))

    unfoldable pub buy_transactions : Swap → Result TradeError (List Transaction)
    buy_transactions swap = buy_transaction swap >>= λ tx. ok (tx ∷ [])

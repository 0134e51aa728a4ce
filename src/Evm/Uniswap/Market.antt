-- ===== src/Evm/Uniswap/Market.antt =====
-- `find_market`, `eth_pool` and `route` of `src/evm/dexes/uniswap/mod.rs`: which pool a trade takes.
use trading_aggregators.Prelude.{
  Option, none, some, List, [], ◌∷◌, ◌++◌, ltb, ◌==◌, if◌then◌else◌, map,
}
use trading_aggregators.Error.{TradeError, Result, ok, err}
use trading_aggregators.Action.{Action, lift, pure, attempt, ◌>>=◌}
use trading_aggregators.Floats.{Floats}
use trading_aggregators.Evm.Types.{Address, Amount, UniswapPool, QuoteSource, Trade}
use trading_aggregators.Evm.Network.{Network, UniswapDeployment}
use trading_aggregators.Evm.Node.{Provider}
use trading_aggregators.Evm.Uniswap.{
  Abi, AmountFloats, buy, PoolQuote, Route, SwapIn, EthPool, PoolRef, address, v4_id, Schedule,
  in_parallel, try_read, venue_error, eth_pair,
}
use trading_aggregators.Evm.Uniswap.V2
use trading_aggregators.Evm.Uniswap.V3
use trading_aggregators.Evm.Uniswap.V4

-- 0.1 ETH
abbrev pub discovery_probe_wei : Amount
discovery_probe_wei = 100_000_000_000_000_000

pub record NativeMarket : Type 0 where
  pub source : QuoteSource
  pub pool : UniswapPool

-- `max_by_key`: the last of the best.
better : UniswapPool × Amount → List (UniswapPool × Amount) → UniswapPool × Amount
better best [] = best
better best (other ∷ others) = better (if ltb other.1 best.1 then best else other) others

unfoldable pub deepest : List (UniswapPool × Amount) → Option (UniswapPool × Amount)
unfolding better
deepest [] = none
deepest (first ∷ others) = some (better first others)

-- The probes that were answered.
abbrev quoted_pools : List (Result TradeError (UniswapPool × Amount)) → List (UniswapPool × Amount)
quoted_pools [] = []
quoted_pools (ok found ∷ answers) = found ∷ quoted_pools answers
quoted_pools (err _ ∷ answers) = quoted_pools answers

abbrev of_pair : Option UniswapPool → List UniswapPool
of_pair none = []
of_pair (some pool) = pool ∷ []

-- The token of two, one of which is WETH.
unfoldable pub other_token : Address → Address → Address → Option Address
other_token weth token0 token1 =
    if token0 == weth
    then (if token1 == weth then none else some token1)
    else (if token1 == weth then some token0 else none)

abbrev tokens_of : Address → Option Address → Option Address → Option Address
tokens_of weth (some token0) (some token1) = other_token weth token0 token1
tokens_of weth _ _ = none

abbrev eth_pool_of : Address → Option UniswapPool → Option EthPool
eth_pool_of token none = none
eth_pool_of token (some pool) = some (record { token = token; pool = pool })

abbrev market_of : Option (UniswapPool × Amount) → Option NativeMarket
market_of none = none
market_of (some (pool, amount)) = some (record { source = QuoteSource.uniswap; pool = pool })

found_pool : Option NativeMarket → Result TradeError UniswapPool
found_pool none = err (venue_error "no ETH pool for this token; use Relay")
found_pool (some market) = ok market.pool

module _ {W : Type 0} ⦃provider : Provider W⦄ ⦃abi : Abi⦄ where
  or_pair :
      UniswapDeployment
      → Address
      → Address
      → Option UniswapPool
      → Action W TradeError (Option UniswapPool)
  or_pair deployment pool token (some found) = pure (some found)
  or_pair deployment pool token none = V2.official_pair deployment pool token

  -- v3's factory is asked first.
  official : UniswapDeployment → Address → Option Address → Action W TradeError (Option EthPool)
  unfolding or_pair
  official deployment pool none = pure none
  official deployment pool (some token) = do
    v3 ← V3.official_pool deployment pool token
    found ← or_pair deployment pool token v3
    pure (eth_pool_of token found)

  unfoldable pub address_eth_pool :
      UniswapDeployment → Address → Action W TradeError (Option EthPool)
  unfolding official
  address_eth_pool deployment pool = do
    first ← attempt (try_read pool abi.token0)
    second ← attempt (try_read pool abi.token1)
    token0 ← lift first
    token1 ← lift second
    official deployment pool (tokens_of deployment.weth token0 token1)

  -- `Uniswap::eth_pool`
  pub eth_pool : ⦃network : Network⦄ → PoolRef → Action W TradeError (Option EthPool)
  eth_pool ⦃network⦄ (address pool) = address_eth_pool network.uniswap pool
  eth_pool ⦃network⦄ (v4_id id) = V4.eth_pool network.uniswap id

  module _ ⦃f : Floats⦄ ⦃a : AmountFloats⦄ where
    quote_in : UniswapDeployment → UniswapPool → SwapIn → Action W TradeError PoolQuote
    quote_in deployment (UniswapPool.v2 pair) swap = V2.quote deployment pair swap
    quote_in deployment (UniswapPool.v3 pool) swap = V3.quote deployment pool swap
    quote_in deployment (UniswapPool.v4 key) swap = V4.quote deployment key swap

    unfoldable pub quote : UniswapDeployment → Route → Amount → Action W TradeError PoolQuote
    unfolding quote_in
    quote deployment route amount_in =
        quote_in deployment route.pool
          (record { token = route.token; direction = route.direction; amount = amount_in })

    -- What one pool returns for the probe.
    probe : UniswapDeployment → Address → UniswapPool → Action W TradeError (UniswapPool × Amount)
    probe deployment token pool =
        quote deployment (record { pool = pool; token = token; direction = buy })
          discovery_probe_wei
        >>= λ quoted. pure (pool, quoted.amount_out)

    module _ ⦃schedule : Schedule⦄ ⦃network : Network⦄ where
      unfoldable pub find_market : Address → Action W TradeError (Option NativeMarket)
      unfolding probe
      find_market token = do
        pair ← attempt (V2.find network.uniswap token)
        v3_found ← attempt (V3.find network.uniswap token)
        v4_found ← attempt (V4.find network.uniswap token)
        v2 ← lift pair
        v3 ← lift v3_found
        v4 ← lift v4_found
        answers ←
            in_parallel (map (λ pool. probe network.uniswap token pool) (of_pair v2 ++ (v3 ++ v4)))
        pure (market_of (deepest (quoted_pools answers)))

      pool_for : Address → Option UniswapPool → Action W TradeError UniswapPool
      unfolding found_pool
      pool_for token (some pool) = pure pool
      pool_for token none = find_market token >>= λ market. lift (found_pool market)

      -- `Uniswap::route`
      unfoldable pub route : Trade → Action W TradeError Route
      unfolding pool_for
      route t = do
        (direction, token) ← lift (eth_pair t)
        pool ← pool_for token t.pool
        pure (record { pool = pool; token = token; direction = direction })

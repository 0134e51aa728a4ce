-- ===== src/Evm/Uniswap/V3.antt =====
-- `src/evm/dexes/uniswap/v3.rs`: pools with a fee tier, quoted by the quoter contract.
use trading_aggregators.Prelude.{
  ℕ, not, Option, none, some, List, [], ◌∷◌, ltb, ◌==◌, if◌then◌else◌, filter, map,
}
use trading_aggregators.Error.{TradeError, raise_if}
use trading_aggregators.Action.{Action, lift, pure, attempt, ◌>>=◌, ◌>>◌}
use trading_aggregators.Floats.{F64, Floats, f_one}
use trading_aggregators.Text.{collect}
use trading_aggregators.Evm.Types.{Address, UniswapPool}
use trading_aggregators.Evm.Network.{UniswapDeployment}
use trading_aggregators.Evm.Node.{Provider}
use trading_aggregators.Evm.Uniswap.{
  Abi, AmountFloats, is_buy, PoolQuote, SwapIn, QuoteExactInputSingleParams, Schedule, in_parallel,
  read, try_read, venue_error, price_from_sqrt, eth_per_token,
}

abbrev pub fee_tiers : List ℕ
fee_tiers = 100 ∷ 500 ∷ 3_000 ∷ 10_000 ∷ []

abbrev pub quote_params : UniswapDeployment → SwapIn → ℕ → QuoteExactInputSingleParams
quote_params deployment swap fee = record {
  token_in = if is_buy swap.direction then deployment.weth else swap.token;
  token_out = if is_buy swap.direction then swap.token else deployment.weth;
  amount_in = swap.amount;
  fee = fee;
  sqrt_price_limit = 0;
}

module _ {W : Type 0} ⦃provider : Provider W⦄ ⦃abi : Abi⦄ where
  unfoldable pub eth_pool : UniswapDeployment → Address → ℕ → Action W TradeError Address
  eth_pool deployment token fee =
      read deployment.v3_factory (abi.get_pool token deployment.weth fee)

  pub find :
      ⦃schedule : Schedule⦄ → UniswapDeployment → Address → Action W TradeError (List UniswapPool)
  find deployment token = do
    answers ← in_parallel (map (λ fee. eth_pool deployment token fee) fee_tiers)
    pools ← lift (collect (λ answer. answer) answers)
    pure (map UniswapPool.v3 (filter (λ pool. not (pool == 0)) pools))

  -- What `official_pool` reads at the fee tier that the pool reports.
  official_at :
      UniswapDeployment → Address → Address → Option ℕ → Action W TradeError (Option UniswapPool)
  official_at deployment pool token none = pure none
  official_at deployment pool token (some fee) = eth_pool deployment token fee >>= λ official.
      pure (if official == pool then some (UniswapPool.v3 pool) else none)

  pub official_pool :
      UniswapDeployment → Address → Address → Action W TradeError (Option UniswapPool)
  unfolding official_at
  official_pool deployment pool token = do
    fee ← try_read pool abi.pool_fee
    official_at deployment pool token fee

  module _ ⦃f : Floats⦄ ⦃a : AmountFloats⦄ where
    unfoldable pub quote : UniswapDeployment → Address → SwapIn → Action W TradeError PoolQuote
    quote deployment pool swap = do
      fee ← read pool abi.pool_fee
      expected ← attempt (eth_pool deployment swap.token fee)
      slot ← attempt (read pool abi.slot0)
      quoted ← attempt (
          read deployment.v3_quoter
            (abi.quote_exact_input_single (quote_params deployment swap fee)))
      expected_pool ← lift expected
      lift (
          raise_if (not (expected_pool == pool))
            (venue_error "pool is not a Uniswap v3 ETH pool for this token"))
      sqrt_price ← lift slot
      amount_out ← lift quoted
      pure (record {
        amount_out = amount_out;
        eth_per_token = eth_per_token (price_from_sqrt sqrt_price) (ltb deployment.weth swap.token);
      })

    pub usd_per_wei : UniswapDeployment → Action W TradeError F64
    usd_per_wei deployment = do
      first ← attempt (read deployment.eth_usd_pool abi.token0)
      slot ← attempt (read deployment.eth_usd_pool abi.slot0)
      sqrt_price ← lift slot
      token0 ← lift first
      pure (
          f.div
            (f.div f_one (eth_per_token (price_from_sqrt sqrt_price) (token0 == deployment.weth)))
            (a.ten_to deployment.usd_decimals))

-- ===== src/Evm/Uniswap/V2.antt =====
-- `src/evm/dexes/uniswap/v2.rs`: constant-product pairs.
pub mod Bounds
use trading_aggregators.Prelude.{
  ℕ, ◌+◌, ◌*◌, ◌/◌, Bool, not, ◌||◌, Option, none, some, ltb, ◌==◌, if◌then◌else◌,
}
use trading_aggregators.Prelude.Words.{add_u256, mul_u256}
use trading_aggregators.Error.{TradeError, Result, ok, err, raise_if}
use trading_aggregators.Action.{Action, lift, pure, attempt, ◌>>=◌, ◌>>◌}
use trading_aggregators.Floats.{F64, Floats}
use trading_aggregators.Evm.Types.{Address, Amount, UniswapPool}
use trading_aggregators.Evm.Network.{UniswapDeployment}
use trading_aggregators.Evm.Node.{Provider}
use trading_aggregators.Evm.Uniswap.{
  Abi, AmountFloats, Direction, is_buy, PoolQuote, SwapIn, read, venue_error,
}

abbrev pub input_kept_per_mille : ℕ
input_kept_per_mille = 997

abbrev pub per_mille : ℕ
per_mille = 1_000

-- What `quote` computes from the reserves of the input and the output.
unfoldable pub amount_out : Amount → Amount → Amount → Amount
amount_out reserve_in reserve_out amount =
    let in_after_fee = mul_u256 amount input_kept_per_mille in
    mul_u256 in_after_fee reserve_out / add_u256 (mul_u256 reserve_in per_mille) in_after_fee

-- The reserves of the input and the output.
abbrev pub oriented : Direction → Amount × Amount → Amount × Amount
oriented direction (eth, token) = if is_buy direction then (eth, token) else (token, eth)

abbrev when_nonzero : Address → Option UniswapPool
when_nonzero pair = if pair == 0 then none else some (UniswapPool.v2 pair)

-- `quote` behind its reads.
unfoldable pub quote_from :
    ⦃f : Floats⦄ → ⦃a : AmountFloats⦄ → Amount × Amount → SwapIn → Result TradeError PoolQuote
quote_from ⦃f⦄ ⦃a⦄ reserves swap =
    let (reserve_in, reserve_out) = oriented swap.direction reserves in
    if reserve_in == 0 || reserve_out == 0
    then err (venue_error "v2 pair has no liquidity")
    else ok (record {
      amount_out = amount_out reserve_in reserve_out swap.amount;
      eth_per_token = f.div (a.of_amount reserves.0) (a.of_amount reserves.1);
    })

module _ {W : Type 0} ⦃provider : Provider W⦄ ⦃abi : Abi⦄ where
  unfoldable pub eth_pair : UniswapDeployment → Address → Action W TradeError Address
  eth_pair deployment token = read deployment.v2_factory (abi.get_pair token deployment.weth)

  -- `(eth, token)`
  unfoldable pub reserves : Address → Address → Address → Action W TradeError (Amount × Amount)
  reserves pair weth token = do
    (reserve0, reserve1) ← read pair abi.get_reserves
    pure (if ltb weth token then (reserve0, reserve1) else (reserve1, reserve0))

  pub find : UniswapDeployment → Address → Action W TradeError (Option UniswapPool)
  find deployment token = eth_pair deployment token >>= λ pair. pure (when_nonzero pair)

  pub official_pair :
      UniswapDeployment → Address → Address → Action W TradeError (Option UniswapPool)
  official_pair deployment pair token = eth_pair deployment token >>= λ official.
      pure (if official == pair then some (UniswapPool.v2 pair) else none)

  unfoldable pub quote :
      ⦃f : Floats⦄
      → ⦃a : AmountFloats⦄ → UniswapDeployment
      → Address
      → SwapIn
      → Action W TradeError PoolQuote
  quote deployment pair swap = do
    expected ← attempt (eth_pair deployment swap.token)
    found ← attempt (reserves pair deployment.weth swap.token)
    expected_pair ← lift expected
    lift (
        raise_if (not (expected_pair == pair))
          (venue_error "pair is not the token's Uniswap v2 ETH pair"))
    both ← lift found
    lift (quote_from both swap)

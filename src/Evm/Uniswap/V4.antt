-- ===== src/Evm/Uniswap/V4.antt =====
-- `src/evm/dexes/uniswap/v4.rs`: hookless pools under the id of their key.
use trading_aggregators.Prelude.{
  ℕ, ◌^◌, Bool, true, false, not, ◌&&◌, ◌||◌, Option, none, some, List, [], ◌∷◌, ◌++◌, ltb, ◌==◌,
  if◌then◌else◌, take, map, keep_if,
}
use trading_aggregators.Prelude.Int.{ℤ, pos, negsuc}
use trading_aggregators.Prelude.Bytes.{to_be_bytes}
use trading_aggregators.Error.{TradeError, Result, ok, err, ok_or}
use trading_aggregators.Action.{Action, lift, pure, attempt, ◌>>=◌}
use trading_aggregators.Floats.{Floats}
use trading_aggregators.Text.{collect}
use trading_aggregators.Evm.Types.{Address, Amount, PoolKey, UniswapPool}
use trading_aggregators.Evm.Network.{UniswapDeployment}
use trading_aggregators.Evm.Node.{Provider}
use trading_aggregators.Evm.Uniswap.{
  Abi, AmountFloats, is_buy, PoolQuote, SwapIn, EthPool, Schedule, in_parallel, read, try_read,
  venue_error, price_from_sqrt, eth_per_token,
}

-- Fee and tick spacing.
abbrev pub standard_tiers : List (ℕ × ℤ)
standard_tiers = (100, pos 1) ∷ (500, pos 10) ∷ (3_000, pos 60) ∷ (10_000, pos 200) ∷ []

abbrev pub position_manager_id_len : ℕ
position_manager_id_len = 25

pub record EthSide : Type 0 where
  pub is_currency0 : Bool
  pub token : Address

side_of : Bool → Bool → Address → Address → Option EthSide
side_of true false currency0 currency1 = some (record { is_currency0 = true; token = currency1 })
side_of false true currency0 currency1 = some (record { is_currency0 = false; token = currency0 })
side_of true true currency0 currency1 = none
side_of false false currency0 currency1 = none

-- `PoolKey::eth_side`
unfoldable pub eth_side : PoolKey → Address → Option EthSide
unfolding side_of
eth_side key weth =
    side_of (key.currency0 == 0 || key.currency0 == weth)
      (key.currency1 == 0 || key.currency1 == weth) key.currency0 key.currency1

unfoldable pub hookless_key : Address → Address → ℕ → ℤ → PoolKey
hookless_key eth token fee tick_spacing = record {
  currency0 = if ltb eth token then eth else token;
  currency1 = if ltb eth token then token else eth;
  fee = fee;
  tick_spacing = tick_spacing;
  hooks = 0;
}

-- Whether a number fits 24 bits with a sign.
abbrev pub is_i24 : ℤ → Bool
is_i24 (pos n) = ltb n (2 ^ 23)
is_i24 (negsuc n) = ltb n (2 ^ 23)

-- `PoolKey::to_abi`; the key of the ABI has the same fields, in 24 bits.
unfoldable pub to_abi : PoolKey → Result TradeError PoolKey
to_abi key =
    if ltb key.fee (2 ^ 24)
    then (if is_i24 key.tick_spacing
        then ok key
        else err (venue_error "v4 tick spacing exceeds 24 bits"))
    else err (venue_error "v4 fee exceeds 24 bits")

hashed : ⦃abi : Abi⦄ → Result TradeError PoolKey → Result TradeError ℕ
hashed ⦃abi⦄ (ok key) = ok (abi.keccak256 (abi.encode_key key))
hashed (err e) = err e

-- `PoolKey::id`
unfoldable pub id : ⦃abi : Abi⦄ → PoolKey → Result TradeError ℕ
unfolding hashed
id key = hashed (to_abi key)

-- The keys of the standard tiers, with native ether and then with WETH.
abbrev pub keys_with : Address → Address → List PoolKey
keys_with eth token = map (λ tier. hookless_key eth token tier.0 tier.1) standard_tiers

abbrev pub as_u128 : Amount → Result TradeError Amount
as_u128 amount =
    if ltb amount (2 ^ 128) then ok amount else err (venue_error "amount too large for a v4 quote")

-- The key's side that is ether, if the key is hookless and its other side the token.
abbrev pub side_for : PoolKey → Address → Address → Option EthSide
side_for key weth token = elim (eth_side key weth) [
  | none ↦ none
  | some side ↦ keep_if (side.token == token && key.hooks == 0) (some side)
]

abbrev same_id : Result TradeError ℕ → ℕ → Result TradeError Bool
same_id (ok found) id = ok (found == id)
same_id (err e) id = err e

-- `key.hooks.is_zero() && key.id()? == id`
abbrev pub is_routable : ⦃abi : Abi⦄ → PoolKey → ℕ → Result TradeError Bool
is_routable key wanted = if key.hooks == 0 then same_id (id key) wanted else ok false

abbrev initialized_pool : PoolKey → Amount → Option UniswapPool
initialized_pool key sqrt_price = if sqrt_price == 0 then none else some (UniswapPool.v4 key)

abbrev eth_pool_of : Address → Option UniswapPool → Option EthPool
eth_pool_of token none = none
eth_pool_of token (some pool) = some (record { token = token; pool = pool })

abbrev flatten : List (Option UniswapPool) → List UniswapPool
flatten [] = []
flatten (none ∷ found) = flatten found
flatten (some pool ∷ found) = pool ∷ flatten found

abbrev same_direction : Bool → Bool → Bool
same_direction true b = b
same_direction false b = not b

module _ {W : Type 0} ⦃provider : Provider W⦄ ⦃abi : Abi⦄ where
  unfoldable pub initialized :
      UniswapDeployment → PoolKey → Action W TradeError (Option UniswapPool)
  initialized deployment key = do
    pool_id ← lift (id key)
    sqrt_price ← read deployment.v4_state_view (abi.get_slot0 pool_id)
    pure (initialized_pool key sqrt_price)

  pub find :
      ⦃schedule : Schedule⦄ → UniswapDeployment → Address → Action W TradeError (List UniswapPool)
  find deployment token = do
    answers ← in_parallel (
        map (λ key. initialized deployment key)
          (keys_with 0 token ++ keys_with deployment.weth token))
    found ← lift (collect (λ answer. answer) answers)
    pure (flatten found)

  -- What `eth_pool` makes of a key that the position manager knows.
  routable_pool :
      UniswapDeployment → PoolKey → Option EthSide → Action W TradeError (Option EthPool)
  routable_pool deployment key none = pure none
  routable_pool deployment key (some eth) =
      initialized deployment key >>= λ pool. pure (eth_pool_of eth.token pool)

  known_pool : UniswapDeployment → ℕ → Option PoolKey → Action W TradeError (Option EthPool)
  unfolding routable_pool
  known_pool deployment wanted none = pure none
  known_pool deployment wanted (some key) = lift (is_routable key wanted) >>= λ routable.
      routable_pool deployment key (keep_if routable (eth_side key deployment.weth))

  unfoldable pub eth_pool : UniswapDeployment → ℕ → Action W TradeError (Option EthPool)
  unfolding known_pool
  eth_pool deployment wanted = do
    key ←
        try_read deployment.v4_position_manager
          (abi.pool_keys (take position_manager_id_len (to_be_bytes 32 wanted)))
    known_pool deployment wanted key

  unfoldable pub quote :
      ⦃f : Floats⦄
      → ⦃a : AmountFloats⦄ → UniswapDeployment
      → PoolKey
      → SwapIn
      → Action W TradeError PoolQuote
  quote deployment key swap = do
    eth ← lift (
        ok_or (side_for key deployment.weth swap.token)
          (venue_error "v4 key must be a hookless ETH pool for this token"))
    pool_key ← lift (to_abi key)
    exact_amount ← lift (as_u128 swap.amount)
    pool_id ← lift (id key)
    slot ← attempt (read deployment.v4_state_view (abi.get_slot0 pool_id))
    quoted ← attempt (
        read deployment.v4_quoter (
          abi.quote_exact_single (record {
            pool_key = pool_key;
            zero_for_one = same_direction (is_buy swap.direction) eth.is_currency0;
            exact_amount = exact_amount;
            hook_data = [];
          })))
    sqrt_price ← lift slot
    amount_out ← lift quoted
    pure (record {
      amount_out = amount_out;
      eth_per_token = eth_per_token (price_from_sqrt sqrt_price) eth.is_currency0;
    })

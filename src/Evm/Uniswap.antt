-- ===== src/Evm/Uniswap.antt =====
-- `src/evm/dexes/uniswap/mod.rs` and the functions of `abi.rs`: swaps of ETH pairs through the
-- fee-taking router. The ABI's encoding and decoding is the alloy crate's, and a parameter.
pub mod V2
pub mod V3
pub mod V4
pub mod Router
pub mod Market
pub mod Quoting
use trading_aggregators.Prelude.{
  ℕ, ◌+◌, ◌-◌, ◌/◌, String, Bool, true, false, Option, none, some, List, ◌∷◌, [], ◌==◌,
  if◌then◌else◌, length,
}
use trading_aggregators.Prelude.Words.{add_u256, sub_u256}
use trading_aggregators.Error.{TradeError, build, venue, Result, ok, err, ok_or}
use trading_aggregators.Action.{Action, lift, pure, ◌>>=◌}
use trading_aggregators.Floats.{F64, Floats, f_one}
use trading_aggregators.Solana.Client.UsdValues
use trading_aggregators.Solana.Types.{UsdValue}
use trading_aggregators.Evm.Types.{
  Address, Amount, Bytes, AppFee, Currency, native, token, PoolKey, UniswapPool, Trade, of,
}
use trading_aggregators.Evm.Node.{Provider, call, try_call}

abbrev pub uniswap_venue : String
uniswap_venue = "uniswap"

abbrev pub venue_error : String → TradeError
venue_error = venue uniswap_venue

-- A contract function at its arguments: the call's bytes, and its answer, which may not decode.
pub record Call (R : Type 0) : Type 0 where
  pub input : Bytes
  pub decode : Bytes → Option R

pub record QuoteExactInputSingleParams : Type 0 where
  pub token_in : Address
  pub token_out : Address
  pub amount_in : Amount
  pub fee : ℕ
  pub sqrt_price_limit : Amount

pub record QuoteExactSingleParams : Type 0 where
  pub pool_key : PoolKey
  pub zero_for_one : Bool
  pub exact_amount : Amount
  pub hook_data : Bytes

pub data Version : Type 0 where
  v2 v3 v4 : Version

-- `ICswapRouter::Pool`
pub record RouterPool : Type 0 where
  pub version : Version
  pub pool : Address
  pub v4_key : PoolKey

-- The functions of `abi.rs`, where a slot is its square-root price, with the encoding of a key.
pub record Abi : Type 0 where
  pub get_pair : Address → Address → Call Address
  pub token0 : Call Address
  pub token1 : Call Address
  pub get_reserves : Call (ℕ × ℕ)
  pub get_pool : Address → Address → ℕ → Call Address
  pub pool_fee : Call ℕ
  pub slot0 : Call Amount
  pub quote_exact_input_single : QuoteExactInputSingleParams → Call Amount
  pub pool_keys : Bytes → Call PoolKey
  pub get_slot0 : ℕ → Call Amount
  pub quote_exact_single : QuoteExactSingleParams → Call Amount
  pub allowance : Address → Address → Call Amount
  pub approve : Address → Amount → Bytes
  pub buy : RouterPool → Address → Amount → ℕ → Amount → Bytes
  pub sell : RouterPool → Address → Amount → Amount → ℕ → Amount → Bytes
  pub encode_key : PoolKey → Bytes
  pub keccak256 : Bytes → ℕ

-- `f64::from` of an amount, and the powers of ten.
pub record AmountFloats : Type 0 where
  pub of_amount : Amount → F64
  pub ten_to : ℕ → F64

-- 2^96
abbrev pub q96 : F64
q96 = 0x45f0_0000_0000_0000

pub data Direction : Type 0 where
  buy sell : Direction

abbrev pub is_buy : Direction → Bool
is_buy buy = true
is_buy sell = false

pub record PoolQuote : Type 0 where
  pub amount_out : Amount
  pub eth_per_token : F64

pub record Route : Type 0 where
  pub pool : UniswapPool
  pub token : Address
  pub direction : Direction

pub record SwapIn : Type 0 where
  pub token : Address
  pub direction : Direction
  pub amount : Amount

pub record EthPool : Type 0 where
  pub token : Address
  pub pool : UniswapPool

pub data PoolRef : Type 0 where
  address : Address → PoolRef
  v4_id : ℕ → PoolRef

unfoldable pub fee_on : Option AppFee → Amount → Amount
fee_on none amount = 0
fee_on (some fee) amount = of fee amount

pair_of : Currency → Currency → Result TradeError (Direction × Address)
pair_of native (token key) = ok (buy, key)
pair_of (token key) native = ok (sell, key)
pair_of _ _ = err (build "Uniswap trades ETH pairs only; use Relay for other pairs")

unfoldable pub eth_pair : Trade → Result TradeError (Direction × Address)
unfolding pair_of
eth_pair t = pair_of t.input t.output

module _ ⦃f : Floats⦄ where
  unfoldable pub price_from_sqrt : ⦃a : AmountFloats⦄ → Amount → F64
  price_from_sqrt ⦃a⦄ sqrt_price = let root = f.div (a.of_amount sqrt_price) q96 in f.mul root root

  unfoldable pub eth_per_token : F64 → Bool → F64
  eth_per_token token1_per_token0 eth_is_token0 =
      if eth_is_token0 then f.div f_one token1_per_token0 else token1_per_token0

  pub usd_value :
      ⦃a : AmountFloats⦄ → Direction → Amount → Amount → PoolQuote → F64 → Option UsdValue
  usd_value ⦃a⦄ buy amount_in expected_out pool usd_per_wei =
      UsdValues.new (f.mul (a.of_amount amount_in) usd_per_wei)
        (f.mul (a.of_amount expected_out) (f.mul pool.eth_per_token usd_per_wei))
  usd_value ⦃a⦄ sell amount_in expected_out pool usd_per_wei =
      UsdValues.new (f.mul (a.of_amount amount_in) (f.mul pool.eth_per_token usd_per_wei))
        (f.mul (a.of_amount expected_out) usd_per_wei)

decoded : {R : Type 0} → Call R → Option Bytes → Option R
decoded function none = none
decoded function (some answer) = function.decode answer

module _ {W : Type 0} ⦃provider : Provider W⦄ where
  unfoldable pub read : {R : Type 0} → Address → Call R → Action W TradeError R
  read to function = call to function.input >>= λ answer.
      lift (ok_or (function.decode answer) (venue_error "decode"))

  unfoldable pub try_read : {R : Type 0} → Address → Call R → Action W TradeError (Option R)
  unfolding decoded
  try_read to function = try_call to function.input >>= λ answer. pure (decoded function answer)

-- The order in which concurrent tasks end.
pub record Schedule : Type 1 where
  pub arrange : {A : Type 0} → List A → List A

run_all : {W A : Type 0} → List (Action W TradeError A) → W → List (Result TradeError A) × W
run_all [] w = ([], w)
run_all (task ∷ tasks) w =
    let (answer, w') = task w in let (answers, w'') = run_all tasks w' in (answer ∷ answers, w'')

-- `in_parallel`: the results in the order of completion.
unfoldable pub in_parallel :
    {W A : Type 0}
    → ⦃schedule : Schedule⦄ → List (Action W TradeError A)
    → Action W TradeError (List (Result TradeError A))
unfolding run_all
in_parallel ⦃schedule⦄ tasks w =
    let (answers, w') = run_all tasks w in (ok (schedule.arrange answers), w')

-- ===== src/Evm/Types.antt =====
-- `src/evm/types.rs`: trades, quotes and prepared swaps. An address is a number below 2^160, an amount
-- one below 2^256, and an instant counts milliseconds.
pub mod Portions
use trading_aggregators.Prelude.{
  ℕ, ◌-◌, ◌+◌, ◌/◌, ◌%◌, ◌^◌, String, Bool, true, false, ◌&&◌, ◌||◌, Option, none, some, List, [],
  leb, ◌==◌,
}
use trading_aggregators.Prelude.Int.{ℤ}
use trading_aggregators.Prelude.Words.{add_u256, mul_u256}
use trading_aggregators.Error.{TradeError, build, Result, ok, err, raise_if, ◌>>=◌, ◌>>◌}
use trading_aggregators.Action.{Action}
use trading_aggregators.Solana.Types.{UsdValue}

abbrev pub Address : Type 0
Address = ℕ

abbrev pub Amount : Type 0
Amount = ℕ

abbrev pub TransactionHash : Type 0
TransactionHash = ℕ

abbrev pub Bytes : Type 0
Bytes = List ℕ

abbrev pub basis_points : ℕ
basis_points = 10_000

pub data QuoteSource : Type 0 where
  relay uniswap : QuoteSource

pub data Currency : Type 0 where
  native : Currency
  token : Address → Currency

abbrev pub is_native : Currency → Bool
is_native native = true
is_native (token address) = false

-- `Currency::address`
abbrev pub address_of : Currency → Address
address_of native = 0
address_of (token address) = address

-- The pools of `src/evm/dexes/uniswap/mod.rs`, which a trade may name.
pub record PoolKey : Type 0 where
  pub currency0 : Address
  pub currency1 : Address
  pub fee : ℕ
  pub tick_spacing : ℤ
  pub hooks : Address

pub data UniswapPool : Type 0 where
  v2 : Address → UniswapPool
  v3 : Address → UniswapPool
  v4 : PoolKey → UniswapPool

pub record Trade : Type 0 where
  pub wallet : Address
  pub input : Currency
  pub output : Currency
  pub amount : Amount
  pub slippage_bps : ℕ
  pub quote_source : Option QuoteSource
  pub pool : Option UniswapPool

pub exact_input : Address → Currency → Currency → Amount → ℕ → Trade
exact_input wallet input output amount slippage_bps = record {
  wallet = wallet;
  input = input;
  output = output;
  amount = amount;
  slippage_bps = slippage_bps;
  quote_source = none;
  pool = none;
}

pub with_quote_source : Trade → QuoteSource → Trade
with_quote_source t source = record t { quote_source = some source }

pub with_pool : Trade → UniswapPool → Trade
with_pool t pool = record t { pool = some pool }

-- The portion of an amount, rounded down.
unfoldable pub portion : Amount → ℕ → Amount
portion amount bps =
    add_u256 (mul_u256 (amount / basis_points) bps)
      (mul_u256 (amount % basis_points) bps / basis_points)

-- `BASIS_POINTS - bps` on `u16`.
abbrev pub rest_of_basis_points : ℕ → ℕ
rest_of_basis_points bps = (basis_points + 2 ^ 16 - bps) % 2 ^ 16

unfoldable pub min_out : Trade → Amount → Amount
min_out t expected = portion expected (rest_of_basis_points t.slippage_bps)

abbrev is_zero_token : Currency → Bool
is_zero_token native = false
is_zero_token (token address) = address == 0

-- `Trade::validate`
unfoldable pub validate : Trade → Result TradeError (Unit {0})
validate t =
    raise_if
      (t.wallet == 0
        || t.amount == 0
        || leb basis_points t.slippage_bps
        || address_of t.input == address_of t.output
        || is_zero_token t.input
        || is_zero_token t.output)
      (build
        "swap requires a wallet, distinct currencies, positive input and slippage below 10000 bps")

pub record AppFee : Type 0 where
  pub recipient : Address
  pub bps : ℕ

-- `AppFee::new`
unfoldable pub new : Address → ℕ → Result TradeError AppFee
new recipient bps =
    raise_if (recipient == 0 || leb 10_000 bps)
      (build "app fee requires a nonzero claim address and fee below 10000 bps")
    >> ok (record { recipient = recipient; bps = bps })

-- `AppFee::of`
unfoldable pub of : AppFee → Amount → Amount
of fee amount = portion amount fee.bps

pub record FeeAmount : Type 0 where
  pub currency : Currency
  pub amount : Amount

pub record Quote : Type 0 where
  pub chain_id : ℕ
  pub source : String
  pub input : Currency
  pub output : Currency
  pub in_amount : Amount
  pub expected_out : Amount
  pub min_out : Amount
  pub application_fee : Option FeeAmount
  pub usd_value : Option UsdValue

pub record Transaction : Type 0 where
  pub chain_id : ℕ
  pub from : Address
  pub to : Address
  pub input : Bytes
  pub value : Amount
  pub gas : Option Amount
  pub gas_price : Option Amount
  pub max_fee_per_gas : Option Amount
  pub max_priority_fee_per_gas : Option Amount

pub record PreparedSwap : Type 0 where
  pub quote : Quote
  pub wallet : Address
  pub transactions : List Transaction
  pub created_at : ℕ

pub record SwapResult : Type 0 where
  pub quote : Quote
  pub transaction_hashes : List TransactionHash

pub record SwapError : Type 0 where
  pub source : TradeError
  pub submitted : List TransactionHash

pub before_submission : TradeError → SwapError
before_submission source = record { source = source; submitted = [] }

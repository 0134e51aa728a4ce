-- ===== src/Evm/Uniswap/Quoting.antt =====
-- `quote_trade` and `prepare` of `src/evm/dexes/uniswap/mod.rs`.
use trading_aggregators.Prelude.{ℕ, ◌+◌, Option, none, some, List, ◌==◌, if◌then◌else◌}
use trading_aggregators.Prelude.Words.{add_u256, sub_u256}
use trading_aggregators.Error.{TradeError, build, Result, ok, err, ok_or}
use trading_aggregators.Action.{Action, lift, pure, attempt, ◌>>=◌, ◌>>◌}
use trading_aggregators.Floats.{F64, Floats}
use trading_aggregators.Solana.Types.{UsdValue}
use trading_aggregators.Evm.Types.{
  Amount, AppFee, Currency, FeeAmount, Quote, Trade, Transaction, PreparedSwap, min_out, validate,
}
use trading_aggregators.Evm.Network.{Network}
use trading_aggregators.Evm.Node.{Provider}
use trading_aggregators.Evm.Uniswap.{
  Abi, AmountFloats, Direction, is_buy, PoolQuote, Route, Schedule, fee_on, usd_value,
  uniswap_venue, venue_error, read, buy, sell,
}
use trading_aggregators.Evm.Uniswap.V3
use trading_aggregators.Evm.Uniswap.Market.{quote, route}
use trading_aggregators.Evm.Uniswap.Router.{Swap, buy_transactions, sell_transactions}

-- 120 seconds
abbrev pub deadline_seconds : ℕ
deadline_seconds = 120

-- The time of day in seconds since 1970, unless it is before.
pub record TimeOfDay (W : Type 0) : Type 0 where
  pub unix_time : W → Option ℕ

unfoldable pub fee_in : Direction → Option AppFee → Amount → Amount
fee_in direction fee amount = if is_buy direction then fee_on fee amount else 0

unfoldable pub fee_out : Direction → Option AppFee → Amount → Amount
fee_out direction fee amount_out = if is_buy direction then 0 else fee_on fee amount_out

abbrev charged_fee : Amount → Option FeeAmount
charged_fee charged =
    if charged == 0 then none else some (record { currency = Currency.native; amount = charged })

abbrev shown_value :
    ⦃f : Floats⦄
    → ⦃a : AmountFloats⦄ → Direction
    → Amount
    → Amount
    → PoolQuote
    → Result TradeError F64
    → Option UsdValue
shown_value direction amount expected_out pool (ok usd_per_wei) =
    usd_value direction amount expected_out pool usd_per_wei
shown_value direction amount expected_out pool (err _) = none

abbrev later : Option ℕ → Option Amount
later none = none
later (some now) = some (now + deadline_seconds)

abbrev swap_for : ⦃network : Network⦄ → Trade → Route → Quote → Option AppFee → Amount → Swap
swap_for ⦃network⦄ t found quoted fee until = record {
  router = network.uniswap.cswap_router;
  wallet = t.wallet;
  route = found;
  amount_in = t.amount;
  min_out = quoted.min_out;
  fee = fee;
  deadline = until;
}

module _ ⦃network : Network⦄ ⦃f : Floats⦄ ⦃a : AmountFloats⦄ where
  -- What `quote_trade` makes of the pool's answer and the price of ether.
  unfoldable pub quote_from :
      Trade
      → Direction
      → Option AppFee
      → PoolQuote
      → Result TradeError F64
      → Result TradeError Quote
  quote_from t direction fee pool usd_per_wei =
      let expected_out = sub_u256 pool.amount_out (fee_out direction fee pool.amount_out) in
      let charged =
        add_u256 (fee_in direction fee t.amount) (fee_out direction fee pool.amount_out) in
      if min_out t expected_out == 0
      then err (venue_error "quoted output is zero")
      else ok (record {
        chain_id = network.chain_id;
        source = uniswap_venue;
        input = t.input;
        output = t.output;
        in_amount = t.amount;
        expected_out = expected_out;
        min_out = min_out t expected_out;
        application_fee = charged_fee charged;
        usd_value = shown_value direction t.amount expected_out pool usd_per_wei;
      })

  module _ {W : Type 0} ⦃provider : Provider W⦄ ⦃abi : Abi⦄ where
    unfoldable pub quote_trade : Trade → Route → Option AppFee → Action W TradeError Quote
    quote_trade t route fee = do
      answer ←
          attempt
            (quote network.uniswap route (sub_u256 t.amount (fee_in route.direction fee t.amount)))
      usd_per_wei ← attempt (V3.usd_per_wei network.uniswap)
      pool ← lift answer
      lift (quote_from t route.direction fee pool usd_per_wei)

    transactions_in : Direction → Swap → Action W TradeError (List Transaction)
    transactions_in buy swap = lift (buy_transactions swap)
    transactions_in sell swap = do
      allowance ← read swap.route.token (abi.allowance swap.wallet swap.router)
      lift (sell_transactions swap allowance)

    -- `Swap::transactions`
    unfoldable pub transactions : Swap → Action W TradeError (List Transaction)
    unfolding transactions_in
    transactions swap = transactions_in swap.route.direction swap

    -- `Instant::now`
    instant : Action W TradeError ℕ
    instant w = pure (provider.now w) w

    module _ ⦃clock : TimeOfDay W⦄ where
      unfoldable pub deadline : Action W TradeError Amount
      deadline w = lift (ok_or (later (clock.unix_time w)) (build "system clock is before 1970")) w

      -- `Uniswap::prepare`
      unfoldable pub prepare :
          ⦃schedule : Schedule⦄ → Trade → Option AppFee → Action W TradeError PreparedSwap
      unfolding instant
      prepare t fee = do
        lift (validate t)
        found ← route t
        quoted ← quote_trade t found fee
        until ← deadline
        sent ← transactions (swap_for t found quoted fee until)
        created_at ← instant
        pure (record {
          quote = quoted;
          transactions = sent;
          wallet = t.wallet;
          created_at = created_at;
        })

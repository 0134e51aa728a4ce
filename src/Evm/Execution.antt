-- ===== src/Evm/Execution.antt =====
-- `src/evm/execution.rs`: filling a transaction for its signature.
pub mod Confirming
pub mod Running
use trading_aggregators.Prelude.{
  ℕ, zero, suc, ◌+◌, ◌-◌, ◌*◌, ◌/◌, ◌%◌, ◌^◌, String, Bool, true, false, not, Option, none, some,
  List, [], ◌∷◌, ◌++◌, ltb, leb, ◌==◌, if◌then◌else◌, max,
}
use trading_aggregators.Prelude.Words.{add_u64}
use trading_aggregators.Error.{TradeError, build, sign, submit, Result, ok, err, raise_if}
use trading_aggregators.Action.{Action, lift, pure, map_err, ◌>>=◌, ◌>>◌}
use trading_aggregators.Evm.Types.{
  Address, Amount, TransactionHash, Bytes, Transaction, PreparedSwap, SwapResult, SwapError,
}
use trading_aggregators.Evm.Network.{Network}
use trading_aggregators.Evm.Node.{
  Provider, ReceiptStatus, pending, succeeded, reverted, node_chain_id, pending_nonce, estimate_gas,
  eip1559_fees, receipt_status,
}
use trading_aggregators.Evm.Unsigned.{TxKind, TxEip1559, Alloy, verify_signed}

abbrev pub gas_headroom_percent : ℕ
gas_headroom_percent = 20

unfoldable pub to_u64 : Amount → String → Result TradeError ℕ
to_u64 amount message = if ltb amount (2 ^ 64) then ok amount else err (build message)

unfoldable pub to_u128 : Amount → String → Result TradeError ℕ
to_u128 amount message = if ltb amount (2 ^ 128) then ok amount else err (build message)

abbrev pub mul_u64 : ℕ → ℕ → ℕ
mul_u64 a b = (a * b) % 2 ^ 64

-- The estimate with its headroom.
unfoldable pub with_headroom : ℕ → ℕ
with_headroom estimate = add_u64 estimate (mul_u64 estimate gas_headroom_percent / 100)

-- The tip and the cap of `fees` where the transaction leaves one of them to the node's estimate.
tip_or : Option Amount → ℕ → Result TradeError ℕ
tip_or (some fee) estimated = to_u128 fee "priority fee does not fit in 128 bits"
tip_or none estimated = ok estimated

cap_or : Option Amount → ℕ → ℕ → Result TradeError ℕ
cap_or (some fee) estimated priority_fee = to_u128 fee "max fee does not fit in 128 bits"
cap_or none estimated priority_fee = ok (max estimated priority_fee)

-- The transaction that is signed.
abbrev pub filled : ⦃network : Network⦄ → Transaction → ℕ → ℕ × ℕ → ℕ → TxEip1559
filled ⦃network⦄ tx gas caps nonce = record {
  chain_id = network.chain_id;
  nonce = nonce;
  gas_limit = gas;
  max_fee_per_gas = caps.0;
  max_priority_fee_per_gas = caps.1;
  to = TxKind.call tx.to;
  value = tx.value;
  access_list = [];
  input = tx.input;
}

module _ {W : Type 0} ⦃provider : Provider W⦄ where
  unfoldable pub gas_limit : Transaction → Option Amount → Action W TradeError ℕ
  gas_limit tx (some gas) = lift (to_u64 gas "gas limit does not fit in 64 bits")
  gas_limit tx none = estimate_gas tx >>= λ estimate. pure (with_headroom estimate)

  unfoldable pub estimated_fees : Option Amount → Option Amount → Action W TradeError (ℕ × ℕ)
  unfolding tip_or cap_or
  estimated_fees max_fee tip = do
    (estimated_max_fee, estimated_priority_fee) ← eip1559_fees
    priority_fee ← lift (tip_or tip estimated_priority_fee)
    cap ← lift (cap_or max_fee estimated_max_fee priority_fee)
    pure (cap, priority_fee)

  -- The fees of a transaction without a legacy gas price.
  unfoldable pub dynamic_fees : Option Amount → Option Amount → Action W TradeError (ℕ × ℕ)
  dynamic_fees (some max_fee) (some tip) = do
    cap ← lift (to_u128 max_fee "max fee does not fit in 128 bits")
    priority_fee ← lift (to_u128 tip "priority fee does not fit in 128 bits")
    pure (cap, priority_fee)
  dynamic_fees max_fee tip = estimated_fees max_fee tip

  legacy_or : Option Amount → Option Amount → Option Amount → Action W TradeError (ℕ × ℕ)
  legacy_or (some gas_price) max_fee tip =
      lift (to_u128 gas_price "gas price does not fit in 128 bits") >>= λ price. pure (price, price)
  legacy_or none max_fee tip = dynamic_fees max_fee tip

  -- `(max_fee_per_gas, max_priority_fee_per_gas)`
  unfoldable pub fees : Transaction → Action W TradeError (ℕ × ℕ)
  unfolding legacy_or
  fees tx = legacy_or tx.gas_price tx.max_fee_per_gas tx.max_priority_fee_per_gas

  -- `fill`: the gas, the fees and the nonce, in this order.
  unfoldable pub fill : ⦃network : Network⦄ → Transaction → Action W TradeError TxEip1559
  fill tx = do
    gas ← gas_limit tx tx.gas
    caps ← fees tx
    nonce ← pending_nonce tx.from
    pure (filled tx gas caps nonce)

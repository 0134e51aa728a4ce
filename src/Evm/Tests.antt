-- ===== src/Evm/Tests.antt =====
-- The EVM side's theorems at concrete trades.
use trading_aggregators.Prelude.{
  ℕ, ◌+◌, ◌-◌, ◌*◌, ◌/◌, ◌≤◌, ◌<◌, ◌≡◌, refl, some, none, [], ◌∷◌, length, arith,
}
use trading_aggregators.Error.{ok}
use trading_aggregators.Relay.{Step}
use trading_aggregators.Evm.Types.{portion}
use trading_aggregators.Evm.Types.Portions.{portion-eq_floor}
use trading_aggregators.Evm.Uniswap.V2.{amount_out, input_kept_per_mille, per_mille}
use trading_aggregators.Evm.Uniswap.V2.Bounds.{amount_out_keeps_product}
use trading_aggregators.Evm.Execution.Confirming.{confirm}
use trading_aggregators.Evm.Execution.Confirming.Answered.{IsAnswered, confirm-IsAnswered}
use trading_aggregators.Evm.Execution.Running.{execute_transactions}
use trading_aggregators.Evm.Execution.Running.Signed.{IsPrefix}
use trading_aggregators.Evm.Execution.Running.Recorded.{execute_transactions-IsPrefix}
use trading_aggregators.Evm.Relay.Transactions.{
  ApiTransaction, Json, decode, decode_step, decode_items, decode_item, decode_transaction,
  quantity, optional_quantity, consistent, validate_swap, validated,
}
use trading_aggregators.Evm.Relay.Transactions.Decoded.{AreRoute, decode-AreRoute}
use trading_aggregators.Evm.Samples.{
  sample_network, sample_provider, sample_provider-IsClock, sample_amounts, sample_transaction,
  sample_trade, sample_prepared, sample_alloy, sample_alloy-IsEquality,
}

portion-eq_floor_example : (portion 12_345 30 ≡ 12_345 * 30 / 10_000) × (portion 12_345 30 ≤ 12_345)
portion-eq_floor_example = portion-eq_floor 12_345 30 (omega arith) (omega arith)

amount_out_keeps_product_example :
    let out = amount_out 1_000_000 2_000_000 5_000 in
    let kept = 5_000 * input_kept_per_mille in
    (out < 2_000_000)
    × (1_000_000 * per_mille * 2_000_000 ≤ (1_000_000 * per_mille + kept) * (2_000_000 - out))
    × (kept * 2_000_000 < (out + 1) * (1_000_000 * per_mille + kept))
amount_out_keeps_product_example =
    amount_out_keeps_product 1_000_000 2_000_000 5_000 (omega arith) (omega arith) (omega arith)
      (omega arith) (omega arith)

confirm-IsAnswered_example : IsAnswered {W = ℕ} 77 7 60_000 (confirm 60_000 77 7)
confirm-IsAnswered_example = confirm-IsAnswered 60_000 77 7 sample_provider-IsClock

execute_transactions-IsPrefix_example :
    let run =
      execute_transactions {W = ℕ} 60_000 sample_prepared
        (λ wallet tx w. (ok (9 ∷ []), w))
        (λ signed w. (ok 77, w))
        30 in
    IsPrefix 11 (sample_transaction ∷ []) run.1
    × (run.0 ≡ some (ok tt) → length run.1 ≡ length (sample_transaction ∷ []))
execute_transactions-IsPrefix_example =
    execute_transactions-IsPrefix {W = ℕ} 60_000 sample_prepared (λ wallet tx w. (ok (9 ∷ []), w))
      (λ signed w. (ok 77, w)) 30 sample_alloy-IsEquality

abbrev swap_step : Step ApiTransaction
swap_step = record {
  id = "swap";
  kind = "transaction";
  items =
      record {
        status = "incomplete";
        content = some (record {
          chain_id = 4663;
          from = 11;
          to = 0xb92fe925dc43a0ecde6c8b1a2709c170ec4fff4f;
          input = 1 ∷ 2 ∷ 3 ∷ 4 ∷ [];
          value = Json.number (some 1_000);
          gas = none;
          gas_price = none;
          max_fee_per_gas = none;
          max_priority_fee_per_gas = none;
        });
      }
      ∷ [];
}

decode-AreRoute_example : AreRoute sample_trade (sample_transaction ∷ [])
unfolding decode decode_step decode_items decode_item decode_transaction quantity optional_quantity
    consistent validate_swap validated
decode-AreRoute_example = decode-AreRoute (swap_step ∷ []) sample_trade (omega arith) refl

-- ===== src/Solana/Executor/Build/Tests.antt =====
-- A transaction built from a route of one instruction.
use trading_aggregators.Prelude.{
  ℕ, ◌≤◌, ◌≡◌, refl, none, List, [], ◌∷◌, ◌++◌, filter, unwrap_or, arith,
}
use trading_aggregators.Error.{ok}
use trading_aggregators.Solana.Keys.{Instruction}
use trading_aggregators.Solana.Types.{TransactionFormat}
use trading_aggregators.Solana.Transaction.{Transaction, MessageVersion}
use trading_aggregators.Solana.Samples.{
  sample_floats, sample_compiler, sample_chain, sample_message,
}
use trading_aggregators.Solana.Executor.Budget.{
  RequestedBudget, cu_limit_max, take_budget, take_compute_unit_limit, limit_loop,
  is_compute_unit_limit,
}
use trading_aggregators.Solana.Executor.Build.{
  Route, unsigned, build_transaction, after_budget, simulate_units, simulated_message, compile_v0,
  compile_route, check_size, finish_transaction,
}
use trading_aggregators.Solana.Executor.Build.Built.{IsBuilt, build_transaction-IsBuilt}
use trading_aggregators.Solana.Executor.Budget.Taking.{Asks}
use trading_aggregators.Solana.Executor.Build.Compiled.{tip_of}
use trading_aggregators.Solana.Executor.Budget.Requested.{without_requests}

abbrev short_route : Route
short_route = record {
  instructions = record { program_id = 40; accounts = []; bytes = 1 ∷ [] } ∷ [];
  lookup_tables = [];
  format = TransactionFormat.v0;
}

abbrev built_transaction : Transaction
built_transaction = unsigned (sample_message MessageVersion.v0 11 77)

build_transaction-IsBuilt_example :
    (budget : RequestedBudget) × (left : List Instruction) × (limit : ℕ) × (hash : ℕ) × (w₁ : ℕ)
    × (take_budget short_route.instructions short_route.format ≡ ok (budget, left))
    × Asks (filter is_compute_unit_limit short_route.instructions) budget.compute_unit_limit
    × (left ≡ without_requests short_route.format short_route.instructions)
    × (1 ≤ limit)
    × (limit ≤ cu_limit_max)
    × (unwrap_or budget.compute_unit_limit 0 ≤ limit)
    × (sample_chain.get_latest_blockhash w₁ ≡ (ok hash, 0))
    × IsBuilt TransactionFormat.v0 11
        (left ++ tip_of 11 none)
        []
        budget
        limit
        5_000
        hash
        built_transaction
unfolding build_transaction after_budget take_budget take_compute_unit_limit limit_loop
    is_compute_unit_limit simulate_units simulated_message compile_v0 compile_route check_size
    finish_transaction
build_transaction-IsBuilt_example =
    build_transaction-IsBuilt {W = ℕ} 11 short_route 5_000 none 0 0 {tx = built_transaction}
      (omega arith) refl

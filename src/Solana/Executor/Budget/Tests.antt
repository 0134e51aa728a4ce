-- ===== src/Solana/Executor/Budget/Tests.antt =====
-- Budgets of a concrete route.
use trading_aggregators.Prelude.{
  ℕ, ◌+◌, ◌*◌, ◌/◌, ◌^◌, ◌≤◌, ◌<◌, ◌≡◌, refl, not, none, some, List, [], ◌∷◌, ◌++◌, filter, length,
  get_elem?, unwrap_or, arith,
}
use trading_aggregators.Solana.Keys.{Instruction, compute_budget_program, request_heap_frame}
use trading_aggregators.Solana.Types.{v1}
use trading_aggregators.Solana.Samples.{sample_floats}
use trading_aggregators.Solana.Executor.Budget.{
  is_compute_unit_limit, requested_limit, limit_loop, budget_loop, budget_value, requested_slot,
  cu_limit_max, take_compute_unit_limit, take_budget, chosen_limit, unit_price, with_tip, assembled,
  last_compiled_index, micro_lamports_per_lamport,
}
use trading_aggregators.Solana.Executor.Budget.Taking.{
  InRange, Asks, optional, take_compute_unit_limit_once, chosen_limit_bounds, unit_price_spends,
}
use trading_aggregators.Error.{ok}
use trading_aggregators.Solana.Sources.{TransactionConfig, instructions, heap_instructions, budget}
use trading_aggregators.Solana.Common.{set_compute_unit_limit}
use trading_aggregators.Solana.Executor.Budget.Configured.{take_budget-instructions}
use trading_aggregators.Solana.Executor.Budget.Index.{last_compiled_index-assembled}

-- A request for 400,000 units, one for heap, and a swap.
abbrev limit_request : Instruction
limit_request = record {
  program_id = compute_budget_program;
  accounts = [];
  bytes = 2 ∷ 128 ∷ 26 ∷ 6 ∷ 0 ∷ [];
}

abbrev heap_request : Instruction
heap_request = record {
  program_id = compute_budget_program;
  accounts = [];
  bytes = request_heap_frame ∷ 0 ∷ 0 ∷ 1 ∷ 0 ∷ [];
}

abbrev swap_instruction : Instruction
swap_instruction = record { program_id = 40; accounts = []; bytes = 1 ∷ [] }

abbrev last_transfer : Instruction
last_transfer = record { program_id = 41; accounts = []; bytes = 12 ∷ [] }

abbrev budgeted_route : List Instruction
budgeted_route = limit_request ∷ heap_request ∷ swap_instruction ∷ []

take_compute_unit_limit_once_example :
    InRange (some 400_000)
    × (length (filter is_compute_unit_limit budgeted_route) ≡ optional (some 400_000))
    × Asks (filter is_compute_unit_limit budgeted_route) (some 400_000)
    × ((heap_request ∷ swap_instruction ∷ [])
        ≡ filter (λ ix. not (is_compute_unit_limit ix)) budgeted_route)
unfolding take_compute_unit_limit limit_loop requested_limit is_compute_unit_limit
take_compute_unit_limit_once_example =
    take_compute_unit_limit_once budgeted_route (some 400_000)
      (heap_request ∷ swap_instruction ∷ []) refl

chosen_limit_bounds_example :
    (1 ≤ chosen_limit (some 250_000) (some 400_000))
    × (chosen_limit (some 250_000) (some 400_000) ≤ cu_limit_max)
    × (unwrap_or (some 400_000) 0 ≤ chosen_limit (some 250_000) (some 400_000))
chosen_limit_bounds_example =
    chosen_limit_bounds (some 250_000) (some 400_000) (omega arith, omega arith)

unit_price_spends_example :
    (unit_price 100_000 400_000 * 400_000 ≤ 100_000 * micro_lamports_per_lamport)
    × (100_000 * micro_lamports_per_lamport / 400_000 < 2 ^ 64
        → 100_000 * micro_lamports_per_lamport < unit_price 100_000 400_000 * 400_000 + 400_000)
unit_price_spends_example = unit_price_spends 100_000 400_000 (omega arith) (omega arith)

last_compiled_index-assembled_example :
    (index : ℕ) × (last_compiled_index (budgeted_route ++ (last_transfer ∷ [])) v1 ≡ some index)
    × (get_elem?
          (assembled v1 400_000 250 (with_tip 11 none (swap_instruction ∷ last_transfer ∷ [])))
          index
        ≡ some last_transfer)
unfolding take_budget take_compute_unit_limit limit_loop requested_limit is_compute_unit_limit
    budget_loop budget_value requested_slot
last_compiled_index-assembled_example =
    last_compiled_index-assembled budgeted_route last_transfer v1 400_000 250 11 none
      (λ e. absurd (omega arith)) refl

abbrev some_config : TransactionConfig
some_config = record {
  compute_unit_limit = some 400_000;
  loaded_accounts_data_size_limit = none;
  heap_size = some 65_536;
  priority_fee = some 0;
}

-- What is written for it.
abbrev configured : List Instruction
configured = limit_request ∷ heap_request ∷ []

take_budget-instructions_example :
    take_budget (configured ++ (swap_instruction ∷ [])) v1
    ≡ ok (
      record {
        compute_unit_limit = some 400_000;
        loaded_accounts_data_size_limit = none;
        heap_size = some 65_536;
      },
      swap_instruction ∷ [],
    )
unfolding instructions heap_instructions budget set_compute_unit_limit
take_budget-instructions_example =
    take_budget-instructions some_config "bloxroute" (swap_instruction ∷ []) refl
      (λ e. omega arith, tt)

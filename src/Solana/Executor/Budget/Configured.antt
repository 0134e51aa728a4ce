-- ===== src/Solana/Executor/Budget/Configured.antt =====
-- A provider's transaction configuration, as `TransactionConfig::instructions` of
-- `src/solana/sources/mod.rs` writes it and `RequestedBudget::take` of `src/solana/executor.rs` reads
-- it back.
use trading_aggregators.Prelude.{
  ℕ, ◌-◌, ◌^◌, ◌≤◌, ◌<◌, ◌≡◌, ◌≢◌, refl, String, not, Option, none, some, List, [], ◌∷◌, ◌++◌,
  filter, All, arith,
}
use trading_aggregators.Prelude.Bytes.{to_le_bytes, from_le_bytes, from_le_bytes-to_le_bytes}
use trading_aggregators.Error.{ok}
use trading_aggregators.Solana.Keys.{
  Instruction, compute_budget_program, tag_loaded_accounts_data_size_limit, request_heap_frame,
}
use trading_aggregators.Solana.Types.{v1}
use trading_aggregators.Solana.Common.{set_compute_unit_limit}
use trading_aggregators.Solana.Sources.{
  TransactionConfig, instructions, heap_instructions, budget, listed,
}
use trading_aggregators.Solana.Executor.Budget.{
  is_budget, is_compute_unit_limit, requested_limit, limit_loop, take_compute_unit_limit,
  budget_value, requested_slot, budget_loop, take_budget, RequestedBudget, cu_limit_max, only_limit,
}

-- No instruction of the list is for the compute-budget program.
abbrev pub IsFree : List Instruction → Type 0
IsFree ixs = All (λ (ix : Instruction). ix.program_id ≢ compute_budget_program) ixs

filter-IsFree :
    (ixs : List Instruction)
    → IsFree ixs
    → (filter is_compute_unit_limit ixs ≡ [])
      × (filter (λ ix. not (is_compute_unit_limit ix)) ixs ≡ ixs)
      × (filter is_budget ixs ≡ [])
      × (filter (λ ix. not (is_budget ix)) ixs ≡ ixs)
unfolding is_compute_unit_limit
filter-IsFree [] free = (refl, refl, refl, refl)
filter-IsFree (ix ∷ ixs) free = ground (arith, filter-IsFree ixs free.1)

-- The values fit four bytes.
read_back : (n : ℕ) → n < 2 ^ 32 → from_le_bytes (to_le_bytes 4 n) ≡ n
read_back n h = from_le_bytes-to_le_bytes 4 n (omega arith)

abbrev budget_of : Option ℕ → Option ℕ → Option ℕ → RequestedBudget
budget_of limit size heap = record {
  compute_unit_limit = limit;
  loaded_accounts_data_size_limit = size;
  heap_size = heap;
}

abbrev written : Option ℕ → Option ℕ → Option ℕ → List Instruction
written limit size heap =
    listed limit set_compute_unit_limit
    ++ (listed size (budget tag_loaded_accounts_data_size_limit)
        ++ listed heap (budget request_heap_frame))

abbrev Fits : Option ℕ → ℕ → Type 0
Fits none hi = Unit
Fits (some n) hi = (1 ≤ n) × (n ≤ hi)

limit_read :
    (limit : Option ℕ) (rest : List Instruction)
    → Fits limit cu_limit_max
    → filter is_compute_unit_limit rest ≡ []
    → filter (λ ix. not (is_compute_unit_limit ix)) rest ≡ rest
    → take_compute_unit_limit (listed limit set_compute_unit_limit ++ rest) ≡ ok (limit, rest)
unfolding take_compute_unit_limit is_compute_unit_limit requested_limit limit_loop
    set_compute_unit_limit
limit_read none rest fits none_asked same = ground arith
limit_read (some limit) rest fits none_asked same = ground (arith, read_back limit (omega arith))

-- The requests that are left hold no limit.
kept_requests :
    (size heap : Option ℕ) (route : List Instruction)
    → IsFree route
    → let rest =
        listed size (budget tag_loaded_accounts_data_size_limit)
        ++ (listed heap (budget request_heap_frame) ++ route) in
      (filter is_compute_unit_limit rest ≡ [])
      × (filter (λ ix. not (is_compute_unit_limit ix)) rest ≡ rest)
      × (filter is_budget rest ≡ written none size heap)
      × (filter (λ ix. not (is_budget ix)) rest ≡ route)
unfolding is_compute_unit_limit budget
kept_requests none none route free = ground (arith, filter-IsFree route free)
kept_requests none (some h) route free = ground (arith, filter-IsFree route free)
kept_requests (some s) none route free = ground (arith, filter-IsFree route free)
kept_requests (some s) (some h) route free = ground (arith, filter-IsFree route free)

requests_read :
    (limit size heap : Option ℕ)
    → Fits size (2 ^ 32 - 1)
    → Fits heap (2 ^ 32 - 1)
    → budget_loop (only_limit limit) (written none size heap) ≡ ok (budget_of limit size heap)
unfolding budget_loop budget_value requested_slot budget
requests_read limit none none fs fh = ground arith
requests_read limit none (some h) fs fh = ground (arith, read_back h (omega arith))
requests_read limit (some s) none fs fh = ground (arith, read_back s (omega arith))
requests_read limit (some s) (some h) fs fh =
    ground (arith, read_back h (omega arith), read_back s (omega arith))

configured_read :
    (limit size heap : Option ℕ) (route : List Instruction)
    → Fits limit cu_limit_max
    → Fits size (2 ^ 32 - 1)
    → Fits heap (2 ^ 32 - 1)
    → IsFree route
    → take_budget
        (listed limit set_compute_unit_limit
          ++ (listed size (budget tag_loaded_accounts_data_size_limit)
              ++ (listed heap (budget request_heap_frame) ++ route)))
        v1
      ≡ ok (budget_of limit size heap, route)
unfolding take_budget
configured_read limit size heap route fl fs fh free =
    let (no_limit, same, requests, left) = kept_requests size heap route free in
    let e₁ = limit_read limit _ fl no_limit same in
    let e₂ = requests_read limit size heap fs fh in ground (arith, e₁, e₂, requests, left)

abbrev config_of : Option ℕ → Option ℕ → Option ℕ → Option ℕ → TransactionConfig
config_of limit size heap fee = record {
  compute_unit_limit = limit;
  loaded_accounts_data_size_limit = size;
  heap_size = heap;
  priority_fee = fee;
}

-- What an accepted configuration holds, and the instructions that are written for it.
accepted_config :
    (limit size heap fee : Option ℕ) (venue : String) {configured : List Instruction}
    → instructions (config_of limit size heap fee) venue ≡ ok configured
    → Fits limit cu_limit_max
      × Fits size (2 ^ 32 - 1)
      × Fits heap (2 ^ 32 - 1)
      × (configured ≡ written limit size heap)
unfolding instructions heap_instructions
accepted_config none none none fee venue e = ground arith
accepted_config none none (some h) fee venue e = ground arith
accepted_config none (some z) none fee venue e = ground arith
accepted_config none (some z) (some h) fee venue e = ground arith
accepted_config (some l) none none fee venue e = ground arith
accepted_config (some l) none (some h) fee venue e = ground arith
accepted_config (some l) (some z) none fee venue e = ground arith
accepted_config (some l) (some z) (some h) fee venue e = ground arith

append_written :
    (limit size heap : Option ℕ) (route : List Instruction)
    → written limit size heap ++ route
      ≡ listed limit set_compute_unit_limit
        ++ (listed size (budget tag_loaded_accounts_data_size_limit)
            ++ (listed heap (budget request_heap_frame) ++ route))
append_written none none heap route = refl
append_written none (some z) heap route = refl
append_written (some l) none heap route = refl
append_written (some l) (some z) heap route = refl

-- The executor reads back what the provider asked for: from the instructions written for an accepted
-- configuration in front of a route without budget instructions, a V1 transaction takes that
-- configuration's limit, loaded-account size and heap size, and leaves the route.
pub take_budget-instructions :
    (config : TransactionConfig) (venue : String) (route : List Instruction)
    {configured : List Instruction}
    → instructions config venue ≡ ok configured
    → IsFree route
    → take_budget (configured ++ route) v1
      ≡ ok (
        record {
          compute_unit_limit = config.compute_unit_limit;
          loaded_accounts_data_size_limit = config.loaded_accounts_data_size_limit;
          heap_size = config.heap_size;
        },
        route,
      )
take_budget-instructions config venue route {configured} e free =
    let (fl, fs, fh, same) =
      accepted_config config.compute_unit_limit config.loaded_accounts_data_size_limit
        config.heap_size config.priority_fee venue e in
    rw same (
      rw
        (append_written config.compute_unit_limit config.loaded_accounts_data_size_limit
          config.heap_size route)
        (configured_read _ _ _ route fl fs fh free))

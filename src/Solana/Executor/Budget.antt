-- ===== src/Solana/Executor/Budget.antt =====
-- The compute budget that a route asks for, and where its last instruction lands.
mod Tests
pub mod Taking
pub mod Index
pub mod Configured
pub mod Requested
use trading_aggregators.Prelude.{
  ℕ, zero, suc, ◌+◌, ◌-◌, ◌*◌, ◌/◌, Bool, true, false, not, ◌&&◌, ◌||◌, Option, none, some, List,
  [], ◌∷◌, ◌++◌, ltb, leb, ◌==◌, if◌then◌else◌, filter, length, is_empty, is_some, unwrap_or, max,
  min,
}
use trading_aggregators.Prelude.Words.{as_u64, mul_u128, checked_sub}
use trading_aggregators.Prelude.Bytes.{from_le_bytes}
use trading_aggregators.Floats.{Floats, f_1_2}
use trading_aggregators.Error.{TradeError, build, Result, ok, err, raise_if, ◌>>=◌, ◌>>◌}
use trading_aggregators.Solana.Keys.{
  Pubkey, Instruction, compute_budget_program, request_heap_frame, tag_compute_unit_limit,
  tag_loaded_accounts_data_size_limit,
}
use trading_aggregators.Solana.Types.{TransactionFormat, v0, v1, Tip}
use trading_aggregators.Solana.Common.{set_compute_unit_limit, set_compute_unit_price, tip}

abbrev pub cu_limit_max : ℕ
cu_limit_max = 1_400_000

abbrev pub default_cu_limit : ℕ
default_cu_limit = 350_000

abbrev pub micro_lamports_per_lamport : ℕ
micro_lamports_per_lamport = 1_000_000

abbrev pub max_loaded_accounts_data_size : ℕ
max_loaded_accounts_data_size = 64 * 1024 * 1024

abbrev pub prepended_budget_instructions : ℕ
prepended_budget_instructions = 2

abbrev pub is_v0 : TransactionFormat → Bool
is_v0 v0 = true
is_v0 v1 = false

abbrev pub is_budget : Instruction → Bool
is_budget ix = ix.program_id == compute_budget_program

abbrev pub starts_with : ℕ → List ℕ → Bool
starts_with tag [] = false
starts_with tag (b ∷ bs) = b == tag

unfoldable pub is_compute_unit_limit : Instruction → Bool
is_compute_unit_limit ix = is_budget ix && starts_with tag_compute_unit_limit ix.bytes

abbrev pub invalid_budget : TradeError
invalid_budget = build "invalid or duplicate compute-budget request for a v1 transaction"

abbrev pub tail_of : List ℕ → List ℕ
tail_of [] = []
tail_of (b ∷ bs) = bs

-- One request of the loop in `take_compute_unit_limit`, whose instructions all start with the tag.
pub requested_limit : Option ℕ → Instruction → Result TradeError ℕ
requested_limit requested ix = do
  raise_if (not (length (tail_of ix.bytes) == 4)) (build "invalid compute unit limit")
  let limit = from_le_bytes (tail_of ix.bytes)
  raise_if
      (is_some requested || (ltb limit 1 || ltb cu_limit_max limit) || not (is_empty ix.accounts))
      (build "invalid or duplicate compute unit limit")
  ok limit

unfoldable pub limit_loop : Option ℕ → List Instruction → Result TradeError (Option ℕ)
limit_loop requested [] = ok requested
limit_loop requested (ix ∷ ixs) =
    requested_limit requested ix >>= λ limit. limit_loop (some limit) ixs

-- The requested limit, and the instructions that are left.
unfoldable pub take_compute_unit_limit :
    List Instruction → Result TradeError (Option ℕ × List Instruction)
take_compute_unit_limit instructions = do
  requested ← limit_loop none (filter is_compute_unit_limit instructions)
  ok (requested, filter (λ ix. not (is_compute_unit_limit ix)) instructions)

abbrev pub first_byte : List ℕ → ℕ
first_byte [] = 0
first_byte (b ∷ bs) = b

pub budget_value : Instruction → Result TradeError (ℕ × ℕ)
budget_value ix = do
  raise_if (is_empty ix.bytes || not (length (tail_of ix.bytes) == 4)) invalid_budget
  ok (first_byte ix.bytes, from_le_bytes (tail_of ix.bytes))

pub record RequestedBudget : Type 0 where
  pub compute_unit_limit : Option ℕ
  pub loaded_accounts_data_size_limit : Option ℕ
  pub heap_size : Option ℕ

-- One request of the loop in `RequestedBudget::take`: each kind may be asked for once.
pub requested_slot : RequestedBudget → ℕ → ℕ → Result TradeError RequestedBudget
requested_slot budget tag value =
    if tag == request_heap_frame
    then (if is_some budget.heap_size
        then err invalid_budget
        else ok (record budget { heap_size = some value }))
    else (if tag == tag_loaded_accounts_data_size_limit
        then (if is_some budget.loaded_accounts_data_size_limit
            then err invalid_budget
            else ok (record budget { loaded_accounts_data_size_limit = some value }))
        else err invalid_budget)

pub budget_loop : RequestedBudget → List Instruction → Result TradeError RequestedBudget
budget_loop budget [] = ok budget
budget_loop budget (ix ∷ ixs) = budget_value ix >>= λ tagged.
    requested_slot budget tagged.0 tagged.1 >>= λ filled. budget_loop filled ixs

abbrev pub only_limit : Option ℕ → RequestedBudget
only_limit limit = record {
  compute_unit_limit = limit;
  loaded_accounts_data_size_limit = none;
  heap_size = none;
}

-- `RequestedBudget::take`: V0 keeps its heap and loaded-account requests as instructions.
unfoldable pub take_budget :
    List Instruction → TransactionFormat → Result TradeError (RequestedBudget × List Instruction)
take_budget instructions v0 = do
  (limit, left) ← take_compute_unit_limit instructions
  ok (only_limit limit, left)
take_budget instructions v1 = do
  (limit, left) ← take_compute_unit_limit instructions
  budget ← budget_loop (only_limit limit) (filter is_budget left)
  ok (budget, filter (λ ix. not (is_budget ix)) left)

-- `v1::TransactionConfig`
pub record V1Config : Type 0 where
  pub priority_fee : Option ℕ
  pub compute_unit_limit : Option ℕ
  pub loaded_accounts_data_size_limit : Option ℕ
  pub heap_size : Option ℕ

unfoldable pub v1_config : RequestedBudget → ℕ → ℕ → V1Config
v1_config budget limit priority_fee_lamports = record {
  priority_fee = if ltb 0 priority_fee_lamports then some priority_fee_lamports else none;
  compute_unit_limit = some limit;
  loaded_accounts_data_size_limit =
      some (unwrap_or budget.loaded_accounts_data_size_limit max_loaded_accounts_data_size);
  heap_size = budget.heap_size;
}

abbrev pub from_simulation : ⦃f : Floats⦄ → Option ℕ → ℕ
from_simulation ⦃f⦄ none = default_cu_limit
from_simulation ⦃f⦄ (some units) =
    min (max (f.to_u32 (f.mul (f.of_u64 units) f_1_2)) 1) cu_limit_max

-- The compute-unit limit that is set, from the simulated units and the requested floor.
pub chosen_limit : ⦃f : Floats⦄ → Option ℕ → Option ℕ → ℕ
chosen_limit simulated requested = max (from_simulation simulated) (unwrap_or requested 0)

-- The price per compute unit that spends a total priority fee.
pub unit_price : ℕ → ℕ → ℕ
unit_price priority_fee_lamports cu_limit =
    as_u64 (mul_u128 priority_fee_lamports micro_lamports_per_lamport / cu_limit)

-- The tip instruction behind the route.
unfoldable pub with_tip : Pubkey → Option Tip → List Instruction → List Instruction
with_tip payer none instructions = instructions
with_tip payer (some t) instructions = instructions ++ (tip payer t.account t.lamports ∷ [])

-- The instructions that are compiled: V0 puts its two budget instructions first.
unfoldable pub assembled : TransactionFormat → ℕ → ℕ → List Instruction → List Instruction
assembled v0 cu_limit price instructions =
    set_compute_unit_limit cu_limit ∷ set_compute_unit_price price ∷ instructions
assembled v1 cu_limit price instructions = instructions

abbrev pub kept : List Instruction → TransactionFormat → ℕ
kept instructions v0 = length (filter (λ ix. not (is_compute_unit_limit ix)) instructions)
kept instructions v1 = length (filter (λ ix. not (is_budget ix)) instructions)

abbrev pub prepended : TransactionFormat → ℕ
prepended v0 = prepended_budget_instructions
prepended v1 = 0

pub last_compiled_index : List Instruction → TransactionFormat → Option ℕ
last_compiled_index instructions format = elim (checked_sub (kept instructions format) 1) [
  | none ↦ none
  | some index ↦ some (index + prepended format)
]

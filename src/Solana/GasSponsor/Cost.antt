-- ===== src/Solana/GasSponsor/Cost.antt =====
-- `src/solana/gas_sponsor/cost.rs`: the sponsor's ceilings and what it charges for a transaction.
-- Times are in nanoseconds.
mod Tests
pub mod Bounds
use trading_aggregators.Prelude.{
  ℕ, zero, suc, ◌+◌, ◌*◌, ◌-◌, ◌/◌, ◌%◌, Bool, true, false, not, ◌||◌, Option, none, some, List, [],
  ◌∷◌, ◌++◌, ltb, leb, ◌==◌, if◌then◌else◌, get_elem?, set,
}
use trading_aggregators.Prelude.Words.{as_u64, mul_u128, add_u128, div_ceil, checked_sub}
use trading_aggregators.Prelude.Bytes.{to_le_bytes, bytes_eq, overwrite}
use trading_aggregators.Solana.Transaction.{
  CompiledInstruction, Message, Transaction, Simulation, is_legacy, with_instructions,
}
use trading_aggregators.Error.{
  TradeError, build, simulation, Result, ok, err, raise_if, ok_or, ◌>>=◌, ◌>>◌,
}

abbrev pub lamports_per_sol : ℕ
lamports_per_sol = 1_000_000_000

abbrev pub one_usdc : ℕ
one_usdc = 1_000_000

-- 30 and 5 seconds.
abbrev pub max_price_age : ℕ
max_price_age = 30_000_000_000

abbrev pub price_timeout : ℕ
price_timeout = 5_000_000_000

pub record SolUsdcPrice : Type 0 where
  pub usdc_units_per_sol : ℕ
  pub observed_at : ℕ

pub record SponsorCostPolicy : Type 0 where
  pub max_cost_lamports : ℕ
  pub max_fee_usdc : ℕ
  pub service_fee_usdc : ℕ

-- `SponsorCostPolicy::new`, `::with_service_fee_usdc` and `::with_limits`.
pub new_policy : ℕ → ℕ → Result TradeError SponsorCostPolicy
new_policy max_cost_lamports max_fee_usdc =
    if max_cost_lamports == 0 || leb max_fee_usdc one_usdc
    then err (build "cost cap must be positive and USDC cap must exceed 1 USDC")
    else ok (record {
      max_cost_lamports = max_cost_lamports;
      max_fee_usdc = max_fee_usdc;
      service_fee_usdc = one_usdc;
    })

pub policy_with_service_fee_usdc : SponsorCostPolicy → ℕ → Result TradeError SponsorCostPolicy
policy_with_service_fee_usdc s charge =
    if leb s.max_fee_usdc charge
    then err (build "service fee must be below the USDC cap")
    else ok (record s { service_fee_usdc = charge })

pub policy_with_limits : SponsorCostPolicy → ℕ → ℕ → Result TradeError SponsorCostPolicy
policy_with_limits s max_cost_lamports max_fee_usdc =
    if max_cost_lamports == 0 || leb max_fee_usdc s.service_fee_usdc
    then err (build "cost cap must be positive and USDC cap must exceed the service fee")
    else ok (record s { max_cost_lamports = max_cost_lamports; max_fee_usdc = max_fee_usdc })

-- `SponsorCostPolicy::charge`
unfoldable pub charge : SponsorCostPolicy → ℕ → SolUsdcPrice → ℕ → Result TradeError ℕ
charge s cost price now = do
  age ←
      ok_or (checked_sub now price.observed_at) (build "SOL/USDC price timestamp is in the future")
  raise_if (price.usdc_units_per_sol == 0 || ltb max_price_age age)
      (build "SOL/USDC price must be positive and no older than 30 seconds")
  raise_if (ltb s.max_cost_lamports cost)
      (build "simulated sponsor SOL cost exceeds the configured cap")
  let reimbursement = div_ceil (mul_u128 cost price.usdc_units_per_sol) lamports_per_sol
  let total = add_u128 reimbursement s.service_fee_usdc
  raise_if (ltb s.max_fee_usdc total)
      (build "sponsor reimbursement exceeds the configured USDC cap")
  ok (as_u64 total)

abbrev pub first : Option (List ℕ) → Option ℕ
first none = none
first (some []) = none
first (some (x ∷ xs)) = some x

-- The debit of the first account between the two balance lists.
abbrev pub debit : Option ℕ → Option ℕ → Option ℕ
debit (some before) (some after) = checked_sub before after
debit _ _ = none

-- The part of `simulated_cost` behind the node's answer.
unfoldable pub cost_of : Simulation → Result TradeError ℕ
cost_of sim = do
  raise_if sim.failure (simulation "simulation error" [])
  fee ← ok_or sim.fee (build "RPC omitted simulated network fee")
  cost ← ok_or (debit (first sim.pre_balances) (first sim.post_balances)) (
      build
        "RPC omitted valid pre/post sponsor balances; cost recovery requires simulation balance metadata")
  raise_if (ltb cost fee) (build "simulated sponsor debit is below the network fee")
  ok cost

-- The reserved transfer as the token program reads it: tag, amount, decimals.
unfoldable pub transfer_bytes : ℕ → List ℕ
transfer_bytes amount = 12 ∷ (to_le_bytes 8 amount ++ (6 ∷ []))

-- `data[1..9]` of the instruction at `index` overwritten with an amount.
unfoldable pub with_amount : Transaction → ℕ → CompiledInstruction → ℕ → Transaction
with_amount tx index found amount = with_instructions tx (
    set tx.message.instructions index
      (record found { bytes = overwrite found.bytes 1 (to_le_bytes 8 amount) }))

-- `replace_reimbursement`: a message that is neither v0 nor v1 is refused.
unfoldable pub replace_reimbursement : Transaction → ℕ → ℕ → ℕ → Result TradeError Transaction
replace_reimbursement tx index reserved charged = do
  raise_if (is_legacy tx.message.version)
      (build "sponsor cost recovery requires a v0 or v1 transaction")
  found ← ok_or (get_elem? tx.message.instructions index) (build "missing sponsorship transfer")
  raise_if (not (bytes_eq found.bytes (transfer_bytes reserved)) || ltb reserved charged)
      (build "unexpected sponsorship transfer")
  ok (with_amount tx index found charged)

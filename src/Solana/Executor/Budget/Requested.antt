-- ===== src/Solana/Executor/Budget/Requested.antt =====
-- What `RequestedBudget::take` leaves of a route and what it has read from it.
use trading_aggregators.Prelude.{
  ◌≡◌, ◌∙◌, refl, ap, subst, not, List, [], ◌∷◌, filter, inl, inr, arith,
}
use trading_aggregators.Error.{ok, Result-cases}
use trading_aggregators.Solana.Keys.{Instruction}
use trading_aggregators.Solana.Types.{TransactionFormat, v0, v1}
use trading_aggregators.Solana.Executor.Budget.{
  RequestedBudget, is_budget, is_compute_unit_limit, take_compute_unit_limit, take_budget,
  budget_loop, only_limit,
}
use trading_aggregators.Solana.Executor.Budget.Taking.{
  Asks, take_compute_unit_limit_once, budget_loop-limit,
}

-- The instructions without the budget requests that their format takes out.
abbrev pub without_requests : TransactionFormat → List Instruction → List Instruction
without_requests v0 instructions = filter (λ ix. not (is_compute_unit_limit ix)) instructions
without_requests v1 instructions = filter (λ ix. not (is_budget ix)) instructions

-- A request for a limit is a budget instruction.
filter-filter :
    (ixs : List Instruction)
    → filter (λ ix. not (is_budget ix)) (filter (λ ix. not (is_compute_unit_limit ix)) ixs)
      ≡ filter (λ ix. not (is_budget ix)) ixs
unfolding is_compute_unit_limit
filter-filter [] = refl
filter-filter (ix ∷ ixs) = ground (arith, filter-filter ixs)

-- The requests for a limit, and the rest of the route.
pub take_budget-Asks :
    (instructions : List Instruction) (format : TransactionFormat) (budget : RequestedBudget)
    (left : List Instruction)
    → take_budget instructions format ≡ ok (budget, left)
    → Asks (filter is_compute_unit_limit instructions) budget.compute_unit_limit
      × (left ≡ without_requests format instructions)
unfolding take_budget
take_budget-Asks instructions v0 budget left e =
    elim (Result-cases (take_compute_unit_limit instructions)) [
      | inl ((limit, rest), there) ↦
          let (range, count, asks, same) =
            take_compute_unit_limit_once instructions limit rest there in
          let same_limit : limit ≡ budget.compute_unit_limit = ground arith in
          let same_left : left ≡ rest = ground arith in
          (
            subst (Asks (filter is_compute_unit_limit instructions)) same_limit asks,
            same_left ∙ same,
          )
      | inr (failed, there) ↦ absurd (ground arith)
    ]
take_budget-Asks instructions v1 budget left e =
    elim (Result-cases (take_compute_unit_limit instructions)) [
      | inl ((limit, rest), there) ↦
          let (range, count, asks, same) =
            take_compute_unit_limit_once instructions limit rest there in
          elim (Result-cases (budget_loop (only_limit limit) (filter is_budget rest))) [
            | inl (filled, full) ↦
                let same_limit : limit ≡ budget.compute_unit_limit = ground (
                  arith,
                  budget_loop-limit (filter is_budget rest) (only_limit limit) filled full,
                ) in
                let same_left : left ≡ filter (λ ix. not (is_budget ix)) rest = ground arith in
                (
                  subst (Asks (filter is_compute_unit_limit instructions)) same_limit asks,
                  same_left
                      ∙ (ap (λ (ixs : List Instruction). filter (λ ix. not (is_budget ix)) ixs) same
                          ∙ filter-filter instructions),
                )
            | inr (failed, stuck) ↦ absurd (ground arith)
          ]
      | inr (failed, there) ↦ absurd (ground arith)
    ]

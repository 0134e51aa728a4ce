-- ===== src/Solana/Executor/Build/Built.antt =====
-- What a built transaction is.
use trading_aggregators.Prelude.{
  ℕ, ◌^◌, ◌<◌, ◌≤◌, ◌≡◌, Option, List, ◌++◌, filter, unwrap_or, refl, subst, sym, inl, inr, arith,
}
use trading_aggregators.Error.{ok, Result-cases}
use trading_aggregators.Action.{lift, >>=-eq-ok}
use trading_aggregators.Floats.{Floats}
use trading_aggregators.Solana.Keys.{Pubkey, Instruction}
use trading_aggregators.Solana.Types.{Tip, LookupTable, TransactionFormat}
use trading_aggregators.Solana.Common.{tip}
use trading_aggregators.Solana.Transaction.{Transaction}
use trading_aggregators.Solana.Chain.{Chain, Compiler}
use trading_aggregators.Solana.Executor.Budget.{
  RequestedBudget, V1Config, take_budget, chosen_limit, cu_limit_max, is_compute_unit_limit,
}
use trading_aggregators.Solana.Executor.Budget.Taking.{
  Asks, chosen_limit_bounds, take_budget-InRange,
}
use trading_aggregators.Solana.Executor.Budget.Requested.{without_requests, take_budget-Asks}
use trading_aggregators.Solana.Executor.Build.{
  Route, unsigned, check_size, maximum_size, compile_route, finish_transaction, build_transaction,
  tipped, after_budget, simulate_units, latest_blockhash,
}
use trading_aggregators.Solana.Executor.Build.Compiled.{
  tip_of, with_tip-append, IsCompiled, compile_route-IsCompiled,
}

module _ ⦃compiler : Compiler V1Config⦄ where
  -- A transaction without signatures yet, that was compiled from a route and fits its format.
  abbrev pub IsBuilt :
      TransactionFormat
      → Pubkey
      → List Instruction
      → List LookupTable
      → RequestedBudget
      → ℕ
      → ℕ
      → ℕ
      → Transaction
      → Type 0
  IsBuilt format payer instructions tables budget limit fee hash tx =
      IsCompiled format payer instructions tables budget limit fee hash tx.message
      × (tx ≡ unsigned tx.message)
      × ((size : ℕ) × (compiler.serialized_size tx ≡ ok size) × (size ≤ maximum_size format))

  check_size-eq-ok :
      (tx : Transaction) (route : Route)
      → check_size tx route.format ≡ ok tt
      → (size : ℕ) × (compiler.serialized_size tx ≡ ok size) × (size ≤ maximum_size route.format)
  unfolding check_size
  check_size-eq-ok tx route e = elim (Result-cases (compiler.serialized_size tx)) [
    | inl (size, there) ↦ (size, there, ground arith)
    | inr (failed, there) ↦ absurd (ground arith)
  ]

  finish_transaction-IsBuilt :
      ⦃f : Floats⦄ (payer : Pubkey) (route : Route) (budget : RequestedBudget) (fee : ℕ)
      (units : Option ℕ) (hash : ℕ) {tx : Transaction}
      → fee < 2 ^ 64
      → finish_transaction payer route budget fee units hash ≡ ok tx
      → IsBuilt route.format payer route.instructions route.lookup_tables budget
          (chosen_limit units budget.compute_unit_limit)
          fee
          hash
          tx
  unfolding finish_transaction
  finish_transaction-IsBuilt payer route budget fee units hash {tx} fits e =
      let limit = chosen_limit units budget.compute_unit_limit in
      elim (Result-cases (compile_route payer route budget limit fee hash)) [
        | inl (message, compiled) ↦
            let same : tx ≡ unsigned message = ground arith in
            let small : check_size (unsigned message) route.format ≡ ok tt = ground arith in
            subst
              (IsBuilt route.format payer route.instructions route.lookup_tables budget limit fee
                hash)
              (sym same)
              (
                compile_route-IsCompiled payer route budget limit fee hash fits compiled,
                refl,
                check_size-eq-ok (unsigned message) route small,
              )
        | inr (failed, there) ↦ absurd (ground arith)
      ]

  module _ {W : Type 0} ⦃chain : Chain W⦄ ⦃f : Floats⦄ where
    after_budget-eq-ok :
        (payer : Pubkey) (route : Route) (fee : ℕ) (budget : RequestedBudget) (w w' : W)
        {tx : Transaction}
        → after_budget payer route fee budget w ≡ (ok tx, w')
        → (units : Option ℕ) × (hash : ℕ) × (w₁ : W) × (chain.get_latest_blockhash w₁
            ≡ (ok hash, w'))
          × (finish_transaction payer route budget fee units hash ≡ ok tx)
    unfolding after_budget
    after_budget-eq-ok payer route fee budget w w' e =
        let (simulated, w₁) = simulate_units payer route budget w in
        let (blockhash, w₂) = latest_blockhash w₁ in
        elim (Result-cases simulated) [
          | inl (units, e₁) ↦ elim (Result-cases blockhash) [
            | inl (hash, e₂) ↦ (units, hash, w₁, ground arith, ground arith)
            | inr (failed, e₂) ↦ absurd (ground arith)
          ]
          | inr (failed, e₁) ↦ absurd (ground arith)
        ]

    -- The transaction of a route, for a `u64` fee, is compiled from the route without the budget
    -- requests that its format takes out and with the tip behind it, for a blockhash that the node gave.
    -- It sets a limit that lies between 1 and 1.4 million and is not below what the route's request says,
    -- and the price per unit that spends the fee, or on V1 the fee itself and the sizes that were taken
    -- from the route; it carries no signature yet and is not larger than its format allows.
    pub build_transaction-IsBuilt :
        (payer : Pubkey) (route : Route) (fee : ℕ) (tip : Option Tip) (w w' : W) {tx : Transaction}
        → fee < 2 ^ 64
        → build_transaction payer route fee tip w ≡ (ok tx, w')
        → (budget : RequestedBudget) × (left : List Instruction) × (limit : ℕ) × (hash : ℕ)
          × (w₁ : W) × (take_budget route.instructions route.format ≡ ok (budget, left))
          × Asks (filter is_compute_unit_limit route.instructions) budget.compute_unit_limit
          × (left ≡ without_requests route.format route.instructions)
          × (1 ≤ limit)
          × (limit ≤ cu_limit_max)
          × (unwrap_or budget.compute_unit_limit 0 ≤ limit)
          × (chain.get_latest_blockhash w₁ ≡ (ok hash, w'))
          × IsBuilt route.format payer
              (left ++ tip_of payer tip)
              route.lookup_tables
              budget
              limit
              fee
              hash
              tx
    unfolding build_transaction
    build_transaction-IsBuilt payer route fee tip w w' {tx} fits e =
        let (taken, w₀, e₁, k₁) =
          >>=-eq-ok (lift (take_budget route.instructions route.format))
            (λ taken. after_budget payer (tipped payer tip route taken.1) fee taken.0) w w' e in
        let (budget, left) = taken in
        let (units, hash, w₁, hashed, finished) =
          after_budget-eq-ok payer (tipped payer tip route left) fee budget w₀ w' k₁ in
        let took : take_budget route.instructions route.format ≡ ok (budget, left) = ground arith in
        let limit = chosen_limit units budget.compute_unit_limit in
        let range = take_budget-InRange route.instructions route.format budget left took in
        let (asks, same) = take_budget-Asks route.instructions route.format budget left took in
        let (low, high, enough) = chosen_limit_bounds units budget.compute_unit_limit range in
        (
          budget,
          left,
          limit,
          hash,
          w₁,
          took,
          asks,
          same,
          low,
          high,
          enough,
          hashed,
          subst
              (λ (ixs : List Instruction).
                IsBuilt route.format payer ixs route.lookup_tables budget limit fee hash tx)
              (with_tip-append payer tip left)
              (finish_transaction-IsBuilt payer (tipped payer tip route left) budget fee units hash
                fits finished),
        )

-- ===== src/Solana/Executor/Build/Compiled.antt =====
-- What the message of a built transaction is compiled from.
use trading_aggregators.Prelude.{
  ℕ, ◌*◌, ◌/◌, ◌%◌, ◌^◌, ◌<◌, ◌≡◌, ◌∙◌, Option, none, some, List, [], ◌∷◌, ◌++◌, ltb, ap,
  if◌then◌else◌, unwrap_or, refl, subst, inl, inr, arith,
}
use trading_aggregators.Error.{ok, Result-cases}
use trading_aggregators.Solana.Keys.{Pubkey, Instruction}
use trading_aggregators.Solana.Types.{Tip, LookupTable, TransactionFormat, v0, v1}
use trading_aggregators.Solana.Common.{set_compute_unit_limit, set_compute_unit_price, tip}
use trading_aggregators.Solana.Transaction.{Message}
use trading_aggregators.Solana.Chain.{Compiler}
use trading_aggregators.Solana.Executor.Budget.{
  RequestedBudget, V1Config, unit_price, assembled, v1_config, with_tip,
}
use trading_aggregators.Solana.Executor.Budget.Taking.{unit_price-eq}
use trading_aggregators.Solana.Executor.Build.{Route, compile_v0, compile_v1, compile_route}

-- The tip's instruction, if there is a tip.
abbrev pub tip_of : Pubkey → Option Tip → List Instruction
tip_of payer none = []
tip_of payer (some t) = tip payer t.account t.lamports ∷ []

append-nil : (ixs : List Instruction) → ixs ≡ ixs ++ []
append-nil [] = refl
append-nil (ix ∷ ixs) = ap (λ (r : List Instruction). ix ∷ r) (append-nil ixs)

pub with_tip-append :
    (payer : Pubkey) (tip : Option Tip) (instructions : List Instruction)
    → with_tip payer tip instructions ≡ instructions ++ tip_of payer tip
unfolding with_tip
with_tip-append payer none instructions = append-nil instructions
with_tip-append payer (some t) instructions = refl

module _ ⦃compiler : Compiler V1Config⦄ where
  -- What the message is compiled from. V0 sets the limit and the price that spends the fee in two
  -- instructions in front; V1 sets the limit and the fee itself in its configuration, with the sizes
  -- that were asked for.
  abbrev pub IsCompiled :
      TransactionFormat
      → Pubkey
      → List Instruction
      → List LookupTable
      → RequestedBudget
      → ℕ
      → ℕ
      → ℕ
      → Message
      → Type 0
  IsCompiled v0 payer instructions tables budget limit fee hash message =
      compiler.try_compile_v0 payer
        (set_compute_unit_limit limit
          ∷ set_compute_unit_price (fee * 1_000_000 / limit % 2 ^ 64)
          ∷ instructions)
        tables hash
      ≡ ok message
  IsCompiled v1 payer instructions tables budget limit fee hash message =
      (compiler.try_compile_v1 payer instructions hash (record {
        priority_fee = if ltb 0 fee then some fee else none;
        compute_unit_limit = some limit;
        loaded_accounts_data_size_limit =
            some (unwrap_or budget.loaded_accounts_data_size_limit (64 * 1024 * 1024));
        heap_size = budget.heap_size;
      })
        ≡ ok message)
      × (compiler.validate_v1 message ≡ ok tt)

  compile_v0-eq-ok :
      (payer : Pubkey) (instructions : List Instruction) (route : Route) (hash : ℕ)
      {message : Message}
      → compile_v0 payer instructions route.lookup_tables hash ≡ ok message
      → compiler.try_compile_v0 payer instructions route.lookup_tables hash ≡ ok message
  unfolding compile_v0
  compile_v0-eq-ok payer instructions route hash e = ground arith

  compile_v1-eq-ok :
      (payer : Pubkey) (instructions : List Instruction) (config : V1Config) (hash : ℕ)
      {message : Message}
      → compile_v1 payer instructions config hash ≡ ok message
      → (compiler.try_compile_v1 payer instructions hash config ≡ ok message)
        × (compiler.validate_v1 message ≡ ok tt)
  unfolding compile_v1
  compile_v1-eq-ok payer instructions config hash {message} e =
      elim (Result-cases (compiler.try_compile_v1 payer instructions hash config)) [
        | inl (found, e₁) ↦ elim (Result-cases (compiler.validate_v1 found)) [
          | inl (u, e₂) ↦
              let same : found ≡ message = ground arith in
              (e₁ ∙ ap ok same, subst (λ m. compiler.validate_v1 m ≡ ok tt) same e₂)
          | inr (failed, e₂) ↦ absurd (ground arith)
        ]
        | inr (failed, e₁) ↦ absurd (ground arith)
      ]

  pub compile_route-IsCompiled :
      (payer : Pubkey) (route : Route) (budget : RequestedBudget) (limit fee hash : ℕ)
      {message : Message}
      → fee < 2 ^ 64
      → compile_route payer route budget limit fee hash ≡ ok message
      → IsCompiled route.format payer route.instructions route.lookup_tables budget limit fee hash
          message
  unfolding compile_route assembled v1_config
  compile_route-IsCompiled payer route budget limit fee hash {message} fits e =
      elim route.format
          as (λ format.
            compile_route payer (record route { format = format }) budget limit fee hash
              ≡ ok message
            → IsCompiled format payer route.instructions route.lookup_tables budget limit fee hash
                message) [
                  | v0 ↦ λ e.
                      subst
                        (λ price.
                          compiler.try_compile_v0 payer
                            (set_compute_unit_limit limit
                              ∷ set_compute_unit_price price
                              ∷ route.instructions)
                            route.lookup_tables hash
                          ≡ ok message)
                        (unit_price-eq fee limit fits)
                        (compile_v0-eq-ok payer
                          (set_compute_unit_limit limit
                            ∷ set_compute_unit_price (unit_price fee limit)
                            ∷ route.instructions)
                          route hash e)
                  | v1 ↦ λ e.
                      compile_v1-eq-ok payer route.instructions (v1_config budget limit fee) hash e
                ]
        e

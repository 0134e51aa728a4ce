-- ===== src/Solana/Executor/Build.antt =====
-- `build_transaction` of `src/solana/executor.rs`: compile, simulate, budget, compile again, measure.
mod Tests
pub mod Compiled
pub mod Built
use trading_aggregators.Prelude.{
  ℕ, String, Bool, true, false, Option, none, some, List, [], ◌∷◌, replicate, ltb,
}
use trading_aggregators.Error.{
  TradeError, build, rpc, simulation, Result, ok, err, raise_if, map_err as map_err_result,
  ◌>>=◌ as ◌>>=ᵣ◌, ◌>>◌ as ◌>>ᵣ◌,
}
use trading_aggregators.Action.{Action, lift, pure, map_err, attempt, ◌>>=◌, ◌>>◌}
use trading_aggregators.Floats.{Floats}
use trading_aggregators.Solana.Keys.{Pubkey, Instruction}
use trading_aggregators.Solana.Types.{TransactionFormat, v0, v1, LookupTable, Tip}
use trading_aggregators.Solana.Common.{set_compute_unit_limit}
use trading_aggregators.Solana.Transaction.{Transaction, Message, Simulation}
use trading_aggregators.Solana.Chain.{Chain, Compiler}
use trading_aggregators.Solana.Executor.Budget.{
  RequestedBudget, V1Config, take_budget, v1_config, chosen_limit, unit_price, with_tip, assembled,
  cu_limit_max,
}

abbrev pub max_v0_transaction_bytes : ℕ
max_v0_transaction_bytes = 1_232

pub record Route : Type 0 where
  pub instructions : List Instruction
  pub lookup_tables : List LookupTable
  pub format : TransactionFormat

-- `unsigned`: the default signature in every place.
abbrev pub unsigned : Message → Transaction
unsigned message = record {
  signatures = replicate message.num_required_signatures 0;
  message = message;
}

abbrev pub units_of : Simulation → Result TradeError (Option ℕ)
units_of sim = raise_if sim.failure (simulation "simulation error" []) >>ᵣ ok sim.units_consumed

module _ ⦃compiler : Compiler V1Config⦄ where
  unfoldable pub compile_v0 :
      Pubkey → List Instruction → List LookupTable → ℕ → Result TradeError Message
  compile_v0 payer instructions tables blockhash =
      map_err_result (λ _. build "compile message")
        (compiler.try_compile_v0 payer instructions tables blockhash)

  unfoldable pub compile_v1 : Pubkey → List Instruction → V1Config → ℕ → Result TradeError Message
  compile_v1 payer instructions config blockhash =
      map_err_result (λ _. build "compile v1 message")
        (compiler.try_compile_v1 payer instructions blockhash config)
      >>=ᵣ λ message.
          map_err_result (λ _. build "invalid v1 message") (compiler.validate_v1 message)
          >>ᵣ ok message

  abbrev pub maximum_size : TransactionFormat → ℕ
  maximum_size v0 = max_v0_transaction_bytes
  maximum_size v1 = compiler.max_v1_transaction_size

  unfoldable pub check_size : Transaction → TransactionFormat → Result TradeError (Unit {0})
  check_size tx format =
      map_err_result (λ _. build "measure transaction") (compiler.serialized_size tx) >>=ᵣ λ size.
      raise_if (ltb (maximum_size format) size) (build "transaction is over the maximum size")

  -- The message that is sent, for a chosen limit.
  unfoldable pub compile_route :
      Pubkey → Route → RequestedBudget → ℕ → ℕ → ℕ → Result TradeError Message
  compile_route payer route budget cu_limit priority_fee_lamports blockhash = elim route.format [
    | v0 ↦
        compile_v0 payer
          (assembled v0 cu_limit (unit_price priority_fee_lamports cu_limit) route.instructions)
          route.lookup_tables blockhash
    | v1 ↦
        compile_v1 payer route.instructions (v1_config budget cu_limit priority_fee_lamports)
          blockhash
  ]

  -- The message that is simulated: the highest limit, no priority fee and no blockhash yet.
  unfoldable pub simulated_message : Pubkey → Route → RequestedBudget → Result TradeError Message
  simulated_message payer route budget = elim route.format [
    | v0 ↦
        compile_v0 payer (set_compute_unit_limit cu_limit_max ∷ route.instructions)
          route.lookup_tables 0
    | v1 ↦ compile_v1 payer route.instructions (v1_config budget cu_limit_max 0) 0
  ]

  unfoldable pub finish_transaction :
      ⦃f : Floats⦄
      → Pubkey
      → Route
      → RequestedBudget
      → ℕ
      → Option ℕ
      → ℕ
      → Result TradeError Transaction
  finish_transaction payer route budget priority_fee_lamports simulated blockhash =
      compile_route payer route budget (chosen_limit simulated budget.compute_unit_limit)
        priority_fee_lamports blockhash
      >>=ᵣ λ message. check_size (unsigned message) route.format >>ᵣ ok (unsigned message)

  -- The route without its budget requests and with the tip.
  abbrev pub tipped : Pubkey → Option Tip → Route → List Instruction → Route
  tipped payer tip route left = record route { instructions = with_tip payer tip left }

  module _ {W : Type 0} ⦃chain : Chain W⦄ where
    unfoldable pub simulate_units :
        Pubkey → Route → RequestedBudget → Action W TradeError (Option ℕ)
    simulate_units payer route budget = do
      message ← lift (simulated_message payer route budget)
      sim ←
          map_err (λ _. rpc "simulate_transaction")
            (chain.simulate_transaction (unsigned message) true)
      lift (units_of sim)

    abbrev pub latest_blockhash : Action W TradeError ℕ
    latest_blockhash = map_err (λ _. rpc "get_latest_blockhash") chain.get_latest_blockhash

    -- Both requests are made before either error counts.
    unfoldable pub after_budget :
        ⦃f : Floats⦄ → Pubkey → Route → ℕ → RequestedBudget → Action W TradeError Transaction
    after_budget payer route priority_fee_lamports budget = do
      simulated ← attempt (simulate_units payer route budget)
      blockhash ← attempt latest_blockhash
      units ← lift simulated
      hash ← lift blockhash
      lift (finish_transaction payer route budget priority_fee_lamports units hash)

    unfoldable pub build_transaction :
        ⦃f : Floats⦄ → Pubkey → Route → ℕ → Option Tip → Action W TradeError Transaction
    build_transaction payer route priority_fee_lamports tip =
        lift (take_budget route.instructions route.format) >>= λ taken.
        after_budget payer (tipped payer tip route taken.1) priority_fee_lamports taken.0

-- ===== src/Solana/Executor/Confirming/Tests.antt =====
-- A swap that stays pending.
use trading_aggregators.Prelude.{ℕ}
use trading_aggregators.Solana.Samples.{sample_chain, sample_chain-IsClock}
use trading_aggregators.Solana.Executor.Confirming.{confirm}
use trading_aggregators.Solana.Executor.Confirming.Deadline.{IsAnswer, confirm-IsAnswer}

confirm-IsAnswer_example : IsAnswer {W = ℕ} 7 30_000 (confirm 5 30_000 7)
confirm-IsAnswer_example = confirm-IsAnswer 5 30_000 7 sample_chain-IsClock

-- ===== src/Solana/Executor/Confirming.antt =====
-- `check_status` and `confirm` of `src/solana/executor.rs`.
mod Tests
pub mod Deadline
use trading_aggregators.Prelude.{
  ℕ, zero, suc, ◌-◌, ◌/◌, String, Bool, true, false, Option, none, some, leb, if◌then◌else◌,
}
use trading_aggregators.Error.{TradeError, rpc, Result, ok, err}
use trading_aggregators.Action.{Action, pure, map_err, ◌>>=◌}
use trading_aggregators.Solana.Types.{SwapStatus, confirmed, failed, pending}
use trading_aggregators.Solana.Chain.{Chain}

-- Milliseconds between two looks at the status.
abbrev pub poll_interval : ℕ
poll_interval = 500

abbrev pub status_of : Option Bool → SwapStatus
status_of none = pending
status_of (some true) = confirmed
status_of (some false) = failed

-- One round for each whole interval before the deadline, and one at it.
abbrev pub enough_fuel : ℕ → ℕ
enough_fuel deadline = suc (suc (deadline / poll_interval))

module _ {W : Type 0} ⦃chain : Chain W⦄ where
  pub check_status : ℕ → Action W TradeError SwapStatus
  check_status sig =
      map_err (λ _. rpc "signature status") (chain.get_signature_status sig) >>= λ status.
      pure (status_of status)

  -- What one round does with the status: end with a result, or wait for the next round.
  pub poll : ℕ → ℕ → Result TradeError SwapStatus × W → Option (Result TradeError SwapStatus) × W
  poll start deadline (err e, w) = (some (err e), w)
  poll start deadline (ok confirmed, w) = (some (ok confirmed), w)
  poll start deadline (ok failed, w) = (some (ok failed), w)
  poll start deadline (ok pending, w) =
      if leb deadline (chain.now w - start)
      then (some (ok pending), w)
      else (none, chain.sleep poll_interval w)

  -- The loop, on fuel; `none` is a loop that still runs.
  pub confirm_loop : ℕ → ℕ → ℕ → ℕ → W → Option (Result TradeError SwapStatus) × W
  confirm_loop zero start deadline sig w = (none, w)
  confirm_loop (suc fuel) start deadline sig w =
      let (answer, w') = poll start deadline (check_status sig w) in
      elim answer [ some r ↦ (some r, w') | none ↦ confirm_loop fuel start deadline sig w' ]

  pub confirm : ℕ → ℕ → W → Option (Result TradeError SwapStatus) × W
  confirm sig deadline w = confirm_loop (enough_fuel deadline) (chain.now w) deadline sig w

-- ===== src/Evm/Execution/Confirming.antt =====
-- `confirm` of `src/evm/execution.rs`. The timeout around the poll is checked against the clock after
-- every wait. What comes at the deadline itself still counts, as the call is polled before the timer;
-- what a call that the timeout cancels would have answered is dropped.
pub mod Answered
use trading_aggregators.Prelude.{
  ℕ, zero, suc, ◌-◌, ◌/◌, Bool, Option, none, some, ltb, if◌then◌else◌,
}
use trading_aggregators.Error.{TradeError, submit, Result, ok, err}
use trading_aggregators.Evm.Types.{TransactionHash}
use trading_aggregators.Evm.Node.{
  Provider, ReceiptStatus, pending, succeeded, reverted, receipt_status,
}

-- 1 second, in milliseconds.
abbrev pub poll_interval : ℕ
poll_interval = 1_000

abbrev pub timed_out : Result TradeError (Unit {0})
timed_out = err (submit "confirmation timed out; transaction may still confirm")

module _ {W : Type 0} ⦃provider : Provider W⦄ where
  abbrev pub expired : ℕ → ℕ → W → Bool
  expired start timeout w = ltb timeout (provider.now w - start)

  abbrev pub unless_expired :
      ℕ → ℕ → Option (Result TradeError (Unit {0})) × W → Option (Result TradeError (Unit {0})) × W
  unless_expired start timeout (answer, w) =
      if expired start timeout w then (some timed_out, w) else (answer, w)

  -- What one round does with the status: end, or wait for the next one.
  unfoldable pub poll :
      ℕ → ℕ → Result TradeError ReceiptStatus × W → Option (Result TradeError (Unit {0})) × W
  poll start timeout (err e, w) = unless_expired start timeout (some (err e), w)
  poll start timeout (ok succeeded, w) = unless_expired start timeout (some (ok tt), w)
  poll start timeout (ok reverted, w) =
      unless_expired start timeout (some (err (submit "transaction reverted")), w)
  poll start timeout (ok pending, w) =
      if expired start timeout w
      then (some timed_out, w)
      else unless_expired start timeout (none, provider.sleep poll_interval w)

  -- The loop, on fuel; `none` is a loop that still runs.
  unfoldable pub confirm_loop :
      ℕ → ℕ → ℕ → TransactionHash → W → Option (Result TradeError (Unit {0})) × W
  confirm_loop zero start timeout hash w = (none, w)
  confirm_loop (suc fuel) start timeout hash w =
      let (answer, w') = poll start timeout (receipt_status hash w) in
      elim answer [ some r ↦ (some r, w') | none ↦ confirm_loop fuel start timeout hash w' ]

  -- A round for each whole interval of the timeout, and the first one.
  unfoldable pub confirm : ℕ → TransactionHash → W → Option (Result TradeError (Unit {0})) × W
  confirm timeout hash w =
      confirm_loop (suc (timeout / poll_interval)) (provider.now w) timeout hash w

-- ===== src/Evm/Execution/Confirming/Answered.antt =====
-- `confirm` of `src/evm/execution.rs` always ends.
use trading_aggregators.Prelude.{
  ℕ, zero, suc, ◌+◌, ◌-◌, ◌*◌, ◌/◌, ◌≤◌, ◌<◌, ◌≡◌, refl, Option, none, some, arith,
}
use trading_aggregators.Error.{TradeError, Result, ok, err, Result-cases}
use trading_aggregators.Evm.Types.{TransactionHash}
use trading_aggregators.Evm.Node.{
  Provider, IsClock, ReceiptStatus, pending, succeeded, reverted, receipt_status,
}
use trading_aggregators.Evm.Execution.Confirming.{poll, confirm_loop, confirm, poll_interval}

module _ {W : Type 0} ⦃provider : Provider W⦄ where
  -- An answer is there. It is a success only within the timeout, and only if the node's last answer
  -- was a receipt of a successful transaction.
  abbrev pub IsAnswered :
      TransactionHash → ℕ → ℕ → Option (Result TradeError (Unit {0})) × W → Type 0
  IsAnswered hash start timeout (none, w) = ⊥
  IsAnswered hash start timeout (some (err e), w) = Unit
  IsAnswered hash start timeout (some (ok u), w) =
      (provider.now w - start ≤ timeout) × ((w₀ : W) × (receipt_status hash w₀ ≡ (ok succeeded, w)))

  -- A round that goes on is within the timeout, and it takes an interval.
  poll_waits :
      (start timeout : ℕ) (s : Result TradeError ReceiptStatus) (w w' : W)
      → IsClock provider
      → poll start timeout (s, w) ≡ (none, w')
      → (provider.now w' - start ≤ timeout) × (provider.now w + poll_interval ≤ provider.now w')
  unfolding poll
  poll_waits start timeout (err e) w w' clock h = absurd (ground arith)
  poll_waits start timeout (ok succeeded) w w' clock h = absurd (ground arith)
  poll_waits start timeout (ok reverted) w w' clock h = absurd (ground arith)
  poll_waits start timeout (ok pending) w w' clock h =
      ground (arith, clock.sleep_takes poll_interval w)

  poll_succeeds :
      (start timeout : ℕ) (s : Result TradeError ReceiptStatus) (w w' : W) (u : Unit {0})
      → poll start timeout (s, w) ≡ (some (ok u), w')
      → (provider.now w' - start ≤ timeout) × (s ≡ ok succeeded) × (w ≡ w')
  unfolding poll
  poll_succeeds start timeout (err e) w w' u h = absurd (ground arith)
  poll_succeeds start timeout (ok succeeded) w w' u h = ground arith
  poll_succeeds start timeout (ok reverted) w w' u h = absurd (ground arith)
  poll_succeeds start timeout (ok pending) w w' u h = absurd (ground arith)

  receipt_status-now :
      (hash : TransactionHash) (w : W)
      → IsClock provider
      → provider.now w ≤ provider.now ((receipt_status hash w).1)
  unfolding receipt_status
  receipt_status-now hash w clock = ground (
    arith,
    clock.receipt_keeps hash w,
    Result-cases ((provider.get_transaction_receipt hash w).0),
  )

  -- One round, whose answer is an answer, or after which the rest of the loop gives one.
  round-IsAnswered :
      (fuel start timeout : ℕ) (hash : TransactionHash) (w₀ : W)
      (s : Result TradeError ReceiptStatus) (w : W) (answer : Option (Result TradeError (Unit {0})))
      (w' : W)
      → receipt_status hash w₀ ≡ (s, w)
      → poll start timeout (s, w) ≡ (answer, w')
      → (poll start timeout (s, w) ≡ (none, w')
          → IsAnswered hash start timeout (confirm_loop fuel start timeout hash w'))
      → IsAnswered hash start timeout
          (elim answer [ some r ↦ (some r, w') | none ↦ confirm_loop fuel start timeout hash w' ])
  round-IsAnswered fuel start timeout hash w₀ s w none w' e h rest = rest h
  round-IsAnswered fuel start timeout hash w₀ s w (some (err x)) w' e h rest = tt
  round-IsAnswered fuel start timeout hash w₀ s w (some (ok u)) w' e h rest =
      let (early, same, there) = poll_succeeds start timeout s w w' u h in
      (early, (w₀, ground (arith, e, same, there)))

  confirm_loop-IsAnswered :
      (fuel start timeout : ℕ) (hash : TransactionHash) (w : W)
      → IsClock provider
      → start ≤ provider.now w
      → timeout < (provider.now w - start) + suc fuel * poll_interval
      → IsAnswered hash start timeout (confirm_loop (suc fuel) start timeout hash w)
  unfolding confirm_loop
  confirm_loop-IsAnswered zero start timeout hash w clock h₀ h =
      let (s, w₁) = receipt_status hash w in
      let (a, w₂) = poll start timeout (s, w₁) in
      let later = receipt_status-now hash w clock in
      round-IsAnswered zero start timeout hash w s w₁ a w₂ refl refl (λ e.
        let (before, taken) = poll_waits start timeout s w₁ w₂ clock e in absurd (omega arith))
  confirm_loop-IsAnswered (suc fuel) start timeout hash w clock h₀ h =
      let (s, w₁) = receipt_status hash w in
      let (a, w₂) = poll start timeout (s, w₁) in
      let later = receipt_status-now hash w clock in
      round-IsAnswered (suc fuel) start timeout hash w s w₁ a w₂ refl refl (λ e.
        let (before, taken) = poll_waits start timeout s w₁ w₂ clock e in
        confirm_loop-IsAnswered fuel start timeout hash w₂ clock (omega arith) (omega arith))

  -- On a clock that runs, every confirmation is answered: the fuel is enough whatever the node says,
  -- and a success is reported only within the timeout and only if the node's last answer was a receipt
  -- of a successful transaction.
  pub confirm-IsAnswered :
      (timeout : ℕ) (hash : TransactionHash) (w : W)
      → IsClock provider
      → IsAnswered hash (provider.now w) timeout (confirm timeout hash w)
  unfolding confirm
  confirm-IsAnswered timeout hash w clock =
      confirm_loop-IsAnswered (timeout / poll_interval) (provider.now w) timeout hash w clock
        (omega arith) (omega arith)

-- ===== src/Solana/Executor/Confirming/Deadline.antt =====
-- The confirmation loop ends.
use trading_aggregators.Prelude.{
  ℕ, zero, suc, ◌+◌, ◌-◌, ◌*◌, ◌/◌, ◌≤◌, ◌<◌, ◌≡◌, refl, Option, none, some, arith,
}
use trading_aggregators.Error.{TradeError, Result, ok, err, Result-cases}
use trading_aggregators.Solana.Types.{SwapStatus, confirmed, failed, pending}
use trading_aggregators.Solana.Chain.{Chain, IsClock}
use trading_aggregators.Solana.Executor.Confirming.{
  check_status, poll, confirm_loop, confirm, poll_interval,
}

module _ {W : Type 0} ⦃chain : Chain W⦄ where
  -- A round that goes on was before the deadline, and it takes an interval.
  poll_waits :
      (start deadline : ℕ) (r : Result TradeError SwapStatus) (w w' : W)
      → IsClock chain
      → poll start deadline (r, w) ≡ (none, w')
      → (chain.now w - start < deadline) × (chain.now w + poll_interval ≤ chain.now w')
  unfolding poll
  poll_waits start deadline (err e) w w' clock h = ground arith
  poll_waits start deadline (ok confirmed) w w' clock h = ground arith
  poll_waits start deadline (ok failed) w w' clock h = ground arith
  poll_waits start deadline (ok pending) w w' clock h =
      ground (arith, clock.sleep_takes poll_interval w)

  check_status-now :
      (sig : ℕ) (w : W) → IsClock chain → chain.now w ≤ chain.now ((check_status sig w).1)
  unfolding check_status
  check_status-now sig w clock =
      ground (arith, clock.status_keeps sig w, Result-cases ((chain.get_signature_status sig w).0))

  -- An answer is there, and it is `pending` only if the deadline has passed.
  abbrev pub IsAnswer : ℕ → ℕ → Option (Result TradeError SwapStatus) × W → Type 0
  IsAnswer start deadline (none, w) = ⊥
  IsAnswer start deadline (some (ok pending), w) = deadline ≤ chain.now w - start
  IsAnswer start deadline (some (ok confirmed), w) = Unit
  IsAnswer start deadline (some (ok failed), w) = Unit
  IsAnswer start deadline (some (err e), w) = Unit

  poll_pending :
      (start deadline : ℕ) (s : Result TradeError SwapStatus) (w w' : W)
      → poll start deadline (s, w) ≡ (some (ok pending), w')
      → deadline ≤ chain.now w' - start
  unfolding poll
  poll_pending start deadline (err e) w w' h = absurd (ground arith)
  poll_pending start deadline (ok confirmed) w w' h = absurd (ground arith)
  poll_pending start deadline (ok failed) w w' h = absurd (ground arith)
  poll_pending start deadline (ok pending) w w' h = ground arith

  poll_answers :
      (start deadline : ℕ) (s : Result TradeError SwapStatus) (w w' : W)
      (r : Result TradeError SwapStatus)
      → poll start deadline (s, w) ≡ (some r, w')
      → IsAnswer start deadline (some r, w')
  poll_answers start deadline s w w' (err e) h = tt
  poll_answers start deadline s w w' (ok confirmed) h = tt
  poll_answers start deadline s w w' (ok failed) h = tt
  poll_answers start deadline s w w' (ok pending) h = poll_pending start deadline s w w' h

  -- One round, whose answer is an answer, or after which the rest of the loop gives one.
  round-IsAnswer :
      (fuel start deadline sig : ℕ) (s : Result TradeError SwapStatus) (w : W)
      (answer : Option (Result TradeError SwapStatus)) (w' : W)
      → poll start deadline (s, w) ≡ (answer, w')
      → (poll start deadline (s, w) ≡ (none, w')
          → IsAnswer start deadline (confirm_loop fuel start deadline sig w'))
      → IsAnswer start deadline
          (elim answer [ some r ↦ (some r, w') | none ↦ confirm_loop fuel start deadline sig w' ])
  round-IsAnswer fuel start deadline sig s w none w' h rest = rest h
  round-IsAnswer fuel start deadline sig s w (some r) w' h rest =
      poll_answers start deadline s w w' r h

  confirm_loop-IsAnswer :
      (fuel start deadline sig : ℕ) (w : W)
      → IsClock chain
      → start ≤ chain.now w
      → deadline ≤ (chain.now w - start) + fuel * poll_interval
      → IsAnswer start deadline (confirm_loop (suc fuel) start deadline sig w)
  unfolding confirm_loop
  confirm_loop-IsAnswer zero start deadline sig w clock h₀ h =
      let (s, w₁) = check_status sig w in
      let (a, w₂) = poll start deadline (s, w₁) in
      let later = check_status-now sig w clock in
      round-IsAnswer zero start deadline sig s w₁ a w₂ refl (λ e.
        let (before, taken) = poll_waits start deadline s w₁ w₂ clock e in absurd (omega arith))
  confirm_loop-IsAnswer (suc fuel) start deadline sig w clock h₀ h =
      let (s, w₁) = check_status sig w in
      let (a, w₂) = poll start deadline (s, w₁) in
      let later = check_status-now sig w clock in
      round-IsAnswer (suc fuel) start deadline sig s w₁ a w₂ refl (λ e.
        let (before, taken) = poll_waits start deadline s w₁ w₂ clock e in
        confirm_loop-IsAnswer fuel start deadline sig w₂ clock (omega arith) (omega arith))

  -- On a clock that runs, the fuel is enough: `confirm` gives an answer, and gives `pending` only once
  -- the deadline has passed since it was called.
  pub confirm-IsAnswer :
      (sig deadline : ℕ) (w : W)
      → IsClock chain
      → IsAnswer (chain.now w) deadline (confirm sig deadline w)
  unfolding confirm
  confirm-IsAnswer sig deadline w clock =
      confirm_loop-IsAnswer (suc (deadline / poll_interval)) (chain.now w) deadline sig w clock
        (ground arith) (omega arith)

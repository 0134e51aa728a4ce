-- ===== src/Evm/Execution/Running/Recorded.antt =====
-- What an execution's list of hashes says: `execute_swap` of `src/evm/execution.rs`.
use mathlib.Core.List.{append_assoc, append-nil}
use trading_aggregators.Prelude.{
  ℕ, suc, ◌≡◌, refl, subst, sym, ap, ◌∙◌, Option, none, some, List, [], ◌∷◌, ◌++◌, length,
}
use trading_aggregators.Error.{TradeError, Result, ok, err}
use trading_aggregators.Evm.Types.{Address, TransactionHash, Bytes, Transaction, PreparedSwap}
use trading_aggregators.Evm.Network.{Network}
use trading_aggregators.Evm.Node.{Provider}
use trading_aggregators.Evm.Unsigned.{Alloy, IsEquality}
use trading_aggregators.Evm.Execution.Confirming.{confirm}
use trading_aggregators.Evm.Execution.Running.Signed.{IsSignedFor, IsPrefix, sign_next-IsSignedFor}
use trading_aggregators.Evm.Execution.Running.{
  Signer, Submitter, Run, sign_next, send, after_confirming, after_sending, after_signing,
  check_chains, execute_loop, execute_transactions,
}

module _ ⦃alloy : Alloy⦄ ⦃network : Network⦄ where
  module _ {W : Type 0} ⦃provider : Provider W⦄ where
    -- What a run has added to the hashes.
    abbrev pub Adds : Address → List Transaction → List TransactionHash → Run W → Type 0
    Adds wallet txs submitted (outcome, hashes, w) =
        (new : List TransactionHash) × (hashes ≡ submitted ++ new)
        × IsPrefix wallet txs new
        × (outcome ≡ some (ok tt) → length new ≡ length txs)

    module _ (timeout : ℕ) (prepared : PreparedSwap) (signer : Signer W)
        (submitter : Submitter W) where
      -- A run that ends behind the first transaction.
      ends :
          (tx : Transaction) (txs : List Transaction) (submitted : List TransactionHash)
          (hash : TransactionHash) (outcome : Option (Result TradeError (Unit {0}))) (w : W)
          → IsSignedFor prepared.wallet tx hash
          → (outcome ≡ some (ok tt) → ⊥)
          → Adds prepared.wallet (tx ∷ txs) submitted (outcome, submitted ++ (hash ∷ []), w)
      ends tx txs submitted hash outcome w signed never =
          (hash ∷ [], refl, (signed, tt), λ e. absurd (never e))

      -- A run that goes on behind it.
      goes_on :
          (tx : Transaction) (txs : List Transaction) (submitted : List TransactionHash)
          (hash : TransactionHash) (run : Run W)
          → IsSignedFor prepared.wallet tx hash
          → Adds prepared.wallet txs (submitted ++ (hash ∷ [])) run
          → Adds prepared.wallet (tx ∷ txs) submitted run
      goes_on tx txs submitted hash (outcome, hashes, w) signed (new, e, prefix, all) = (
        hash ∷ new,
        e ∙ append_assoc submitted (hash ∷ []) new,
        (signed, prefix),
        λ done. ap (λ (n : ℕ). suc n) (all done),
      )

      abbrev Rest : Type 0
      Rest = List TransactionHash → W → Run W

      confirmed_round :
          (tx : Transaction) (txs : List Transaction) (submitted : List TransactionHash)
          (hash : TransactionHash) (rest : Rest)
          (answer : Option (Result TradeError (Unit {0})) × W)
          → IsSignedFor prepared.wallet tx hash
          → ((recorded : List TransactionHash) (w : W)
              → Adds prepared.wallet txs recorded (rest recorded w))
          → Adds prepared.wallet (tx ∷ txs) submitted (
              after_confirming timeout prepared signer submitter rest
                (submitted ++ (hash ∷ []))
                answer)
      confirmed_round tx txs submitted hash rest (none, w) signed adds =
          ends tx txs submitted hash none w signed (λ e. cc)
      confirmed_round tx txs submitted hash rest (some (err x), w) signed adds =
          ends tx txs submitted hash (some (err x)) w signed (λ e. cc)
      confirmed_round tx txs submitted hash rest (some (ok u), w) signed adds =
          goes_on tx txs submitted hash (rest (submitted ++ (hash ∷ [])) w) signed
            (adds (submitted ++ (hash ∷ [])) w)

      sent_round :
          (tx : Transaction) (txs : List Transaction) (submitted : List TransactionHash)
          (hash : TransactionHash) (rest : Rest) (sent : Result TradeError (Unit {0}) × W)
          → IsSignedFor prepared.wallet tx hash
          → ((recorded : List TransactionHash) (w : W)
              → Adds prepared.wallet txs recorded (rest recorded w))
          → Adds prepared.wallet (tx ∷ txs) submitted (
              after_sending timeout prepared signer submitter rest
                (submitted ++ (hash ∷ []))
                hash
                sent)
      sent_round tx txs submitted hash rest (err x, w) signed adds =
          ends tx txs submitted hash (some (err x)) w signed (λ e. cc)
      sent_round tx txs submitted hash rest (ok u, w) signed adds =
          confirmed_round tx txs submitted hash rest (confirm timeout hash w) signed adds

      signed_round :
          (tx : Transaction) (txs : List Transaction) (submitted : List TransactionHash)
          (rest : Rest) (w₀ : W) (next : Result TradeError (Bytes × TransactionHash) × W)
          → IsEquality alloy
          → sign_next prepared signer tx w₀ ≡ next
          → ((recorded : List TransactionHash) (w : W)
              → Adds prepared.wallet txs recorded (rest recorded w))
          → Adds prepared.wallet
              (tx ∷ txs)
              submitted
              (after_signing timeout prepared signer submitter rest submitted next)
      signed_round tx txs submitted rest w₀ (err x, w) lawful e adds =
          ([], sym (append-nil submitted), tt, λ done. cc)
      signed_round tx txs submitted rest w₀ (ok (signed, hash), w) lawful e adds =
          sent_round tx txs submitted hash rest (send submitter signed hash w)
            (sign_next-IsSignedFor prepared signer tx w₀ w lawful e) adds

      pub execute_loop-Adds :
          IsEquality alloy
          → (txs : List Transaction) (submitted : List TransactionHash) (w : W)
          → Adds prepared.wallet txs submitted
              (execute_loop timeout prepared signer submitter txs submitted w)
      unfolding execute_loop
      execute_loop-Adds lawful [] submitted w = ([], sym (append-nil submitted), tt, λ e. refl)
      execute_loop-Adds lawful (tx ∷ txs) submitted w =
          signed_round tx txs submitted
            (λ recorded w'. execute_loop timeout prepared signer submitter txs recorded w') w
            (sign_next prepared signer tx w) lawful refl
            (λ recorded w'. execute_loop-Adds lawful txs recorded w')

      checked_run :
          (checked : Result TradeError (Unit {0})) (w : W)
          → IsEquality alloy
          → Adds prepared.wallet prepared.transactions [] (elim checked [
            | err e ↦ (some (err e), [], w)
            | ok _ ↦ execute_loop timeout prepared signer submitter prepared.transactions [] w
          ])
      checked_run (err x) w lawful = ([], refl, tt, λ e. cc)
      checked_run (ok u) w lawful = execute_loop-Adds lawful prepared.transactions [] w

      -- Whatever the node, the signer and the submitter do, and however an execution ends, the hashes
      -- that it reports are those of the first of the prepared transactions, in order, each signed by
      -- the wallet for this chain with the prepared target, value and data, if equality of
      -- transactions is that of the alloy crate; and after a success there is one for each.
      pub execute_transactions-IsPrefix :
          (w : W)
          → IsEquality alloy
          → let run = execute_transactions timeout prepared signer submitter w in
            IsPrefix prepared.wallet prepared.transactions run.1
            × (run.0 ≡ some (ok tt) → length run.1 ≡ length prepared.transactions)
      unfolding execute_transactions
      execute_transactions-IsPrefix w lawful =
          let (checked, w₁) = check_chains timeout prepared signer submitter w in
          let (new, e, prefix, all) = checked_run checked w₁ lawful in
          (
            subst (IsPrefix prepared.wallet prepared.transactions) (sym e) prefix,
            λ done. ap length e ∙ all done,
          )

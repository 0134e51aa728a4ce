-- ===== src/Evm/Execution/Running.antt =====
-- `execute_swap` of `src/evm/execution.rs`: one transaction after the other.
pub mod Signed
pub mod Recorded
use trading_aggregators.Prelude.{
  ℕ, ◌-◌, String, not, Option, none, some, List, [], ◌∷◌, ◌++◌, leb, ◌==◌,
}
use trading_aggregators.Error.{TradeError, build, sign, submit, Result, ok, err, raise_if}
use trading_aggregators.Action.{Action, lift, pure, map_err, ◌>>=◌, ◌>>◌}
use trading_aggregators.Evm.Types.{
  Address, TransactionHash, Bytes, Transaction, PreparedSwap, SwapResult, SwapError,
}
use trading_aggregators.Evm.Network.{Network}
use trading_aggregators.Evm.Node.{Provider, node_chain_id}
use trading_aggregators.Evm.Unsigned.{TxEip1559, Alloy, verify_signed}
use trading_aggregators.Evm.Execution.{fill}
use trading_aggregators.Evm.Execution.Confirming.{confirm}

-- 60 seconds, in milliseconds.
abbrev pub max_quote_age : ℕ
max_quote_age = 60_000

-- `Signer` and `Submitter` of `src/evm/types.rs`, which the caller implements.
abbrev pub Signer : Type 0 → Type 0
Signer W = Address → TxEip1559 → Action W String Bytes

abbrev pub Submitter : Type 0 → Type 0
Submitter W = Bytes → Action W String TransactionHash

-- What an execution has done: its outcome, where `none` is a confirmation that still runs; the hashes
-- that were handed to the submitter, in order; and the world.
abbrev pub Run : Type 0 → Type 0
Run W = Option (Result TradeError (Unit {0})) × List TransactionHash × W

module _ {W : Type 0} ⦃provider : Provider W⦄ ⦃alloy : Alloy⦄ ⦃network : Network⦄ where
  unfoldable pub check_age : PreparedSwap → Action W TradeError (Unit {0})
  check_age prepared w =
      lift
        (raise_if (leb max_quote_age (provider.now w - prepared.created_at))
          (build "prepared quote expired; no further transactions submitted"))
        w

  -- The part of a round before anything is sent: the signed bytes and their hash.
  unfoldable pub sign_next :
      PreparedSwap → Signer W → Transaction → Action W TradeError (Bytes × TransactionHash)
  sign_next prepared signer tx = do
    check_age prepared
    unsigned ← fill tx
    signed ← map_err sign (signer prepared.wallet unsigned)
    hash ← lift (verify_signed unsigned signed prepared.wallet)
    pure (signed, hash)

  unfoldable pub send : Submitter W → Bytes → TransactionHash → Action W TradeError (Unit {0})
  send submitter signed hash = do
    reported ← map_err submit (submitter signed)
    lift (
        raise_if (not (reported == hash))
          (submit "submitter reported another hash than the signed transaction's"))

  module _ (timeout : ℕ) (prepared : PreparedSwap) (signer : Signer W)
      (submitter : Submitter W) where
    -- The end of a round, and what follows a success.
    abbrev pub after_confirming :
        (List TransactionHash → W → Run W)
        → List TransactionHash
        → Option (Result TradeError (Unit {0})) × W
        → Run W
    after_confirming rest recorded (none, w) = (none, recorded, w)
    after_confirming rest recorded (some (err e), w) = (some (err e), recorded, w)
    after_confirming rest recorded (some (ok _), w) = rest recorded w

    abbrev pub after_sending :
        (List TransactionHash → W → Run W)
        → List TransactionHash
        → TransactionHash
        → Result TradeError (Unit {0}) × W
        → Run W
    after_sending rest recorded hash (err e, w) = (some (err e), recorded, w)
    after_sending rest recorded hash (ok _, w) =
        after_confirming rest recorded (confirm timeout hash w)

    -- The hash is recorded before it is sent.
    abbrev pub after_signing :
        (List TransactionHash → W → Run W)
        → List TransactionHash
        → Result TradeError (Bytes × TransactionHash) × W
        → Run W
    after_signing rest submitted (err e, w) = (some (err e), submitted, w)
    after_signing rest submitted (ok (signed, hash), w) =
        after_sending rest (submitted ++ (hash ∷ [])) hash (send submitter signed hash w)

    unfoldable pub execute_loop : List Transaction → List TransactionHash → W → Run W
    execute_loop [] submitted w = (some (ok tt), submitted, w)
    execute_loop (tx ∷ txs) submitted w =
        after_signing (λ recorded w'. execute_loop txs recorded w') submitted
          (sign_next prepared signer tx w)

    -- `check_node_chain` behind the test of the prepared swap's chain.
    unfoldable pub check_chains : Action W TradeError (Unit {0})
    check_chains = do
      lift (
          raise_if (not (prepared.quote.chain_id == network.chain_id))
            (build "prepared swap belongs to a different chain"))
      chain_id ← node_chain_id
      lift (raise_if (not (chain_id == network.chain_id)) (build "RPC is on another chain"))

    unfoldable pub execute_transactions : W → Run W
    execute_transactions w =
        let (checked, w₁) = check_chains w in
        elim checked [
          | err e ↦ (some (err e), [], w₁)
          | ok _ ↦ execute_loop prepared.transactions [] w₁
        ]

  abbrev result_of : PreparedSwap → Run W → Option (Result SwapError SwapResult) × W
  result_of prepared (none, submitted, w) = (none, w)
  result_of prepared (some (ok _), submitted, w) =
      (some (ok (record { quote = prepared.quote; transaction_hashes = submitted })), w)
  result_of prepared (some (err e), submitted, w) =
      (some (err (record { source = e; submitted = submitted })), w)

  unfoldable pub execute_swap :
      ℕ → PreparedSwap → Signer W → Submitter W → W → Option (Result SwapError SwapResult) × W
  execute_swap timeout prepared signer submitter w =
      result_of prepared (execute_transactions timeout prepared signer submitter w)

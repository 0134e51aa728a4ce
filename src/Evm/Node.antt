-- ===== src/Evm/Node.antt =====
-- `src/evm/node.rs`: the node's calls. The provider is the alloy crate's, and a parameter.
use trading_aggregators.Prelude.{
  ℕ, ◌+◌, ◌≤◌, String, Bool, true, false, Option, none, some, if◌then◌else◌,
}
use trading_aggregators.Error.{TradeError, venue, Result, ok, err}
use trading_aggregators.Action.{Action, pure, map_err, ◌>>=◌}
use trading_aggregators.Evm.Types.{Address, TransactionHash, Bytes, Transaction}

abbrev pub rpc_venue : String
rpc_venue = "evm rpc"

-- A failed call, and whether the node's answer mentions a revert.
pub record CallError : Type 0 where
  pub message : String
  pub reverted : Bool

-- A receipt is its status. The clock counts milliseconds.
pub record Provider (W : Type 0) : Type 0 where
  pub get_chain_id : Action W String ℕ
  pub get_pending_transaction_count : Address → Action W String ℕ
  pub call : Address → Bytes → Action W CallError Bytes
  pub estimate_gas : Transaction → Action W String ℕ
  pub estimate_eip1559_fees : Action W String (ℕ × ℕ)
  pub get_transaction_receipt : TransactionHash → Action W String (Option Bool)
  pub send_raw_transaction : Bytes → Action W String TransactionHash
  pub now : W → ℕ
  pub sleep : ℕ → W → W

-- The clock is not turned back by reading a receipt, and a sleep takes its time.
pub record IsClock {W : Type 0} (provider : Provider W) : Type 0 where
  pub receipt_keeps :
      (hash : ℕ) (w : W)
      → provider.now w ≤ provider.now ((provider.get_transaction_receipt hash w).1)
  pub sleep_takes : (d : ℕ) (w : W) → provider.now w + d ≤ provider.now (provider.sleep d w)

pub data ReceiptStatus : Type 0 where
  pending succeeded reverted : ReceiptStatus

pub rpc_error : {A : Type 0} → String → A → TradeError
rpc_error method error = venue rpc_venue method

abbrev pub status_of : Option Bool → ReceiptStatus
status_of none = pending
status_of (some true) = succeeded
status_of (some false) = reverted

-- What `try_call` makes of the provider's answer.
unless_reverted : Result CallError Bytes → Result TradeError (Option Bytes)
unless_reverted (ok output) = ok (some output)
unless_reverted (err e) = if e.reverted then ok none else err (rpc_error "eth_call" e)

module _ {W : Type 0} ⦃provider : Provider W⦄ where
  pub node_chain_id : Action W TradeError ℕ
  node_chain_id = map_err (rpc_error "eth_chainId") provider.get_chain_id

  pub pending_nonce : Address → Action W TradeError ℕ
  pending_nonce address =
      map_err (rpc_error "eth_getTransactionCount") (provider.get_pending_transaction_count address)

  pub call : Address → Bytes → Action W TradeError Bytes
  call to input = map_err (rpc_error "eth_call") (provider.call to input)

  pub try_call : Address → Bytes → Action W TradeError (Option Bytes)
  unfolding unless_reverted
  try_call to input w = let (answer, w') = provider.call to input w in (unless_reverted answer, w')

  pub estimate_gas : Transaction → Action W TradeError ℕ
  estimate_gas tx = map_err (rpc_error "eth_estimateGas") (provider.estimate_gas tx)

  pub eip1559_fees : Action W TradeError (ℕ × ℕ)
  eip1559_fees = map_err (rpc_error "eth_feeHistory") provider.estimate_eip1559_fees

  unfoldable pub receipt_status : TransactionHash → Action W TradeError ReceiptStatus
  receipt_status hash =
      map_err (rpc_error "eth_getTransactionReceipt") (provider.get_transaction_receipt hash)
      >>= λ receipt. pure (status_of receipt)

  pub send_raw_transaction : Bytes → Action W TradeError TransactionHash
  send_raw_transaction signed =
      map_err (rpc_error "eth_sendRawTransaction") (provider.send_raw_transaction signed)

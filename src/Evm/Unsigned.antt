-- ===== src/Evm/Unsigned.antt =====
-- `src/evm/unsigned.rs`: the transaction that a wallet signs, and the check of what it signed.
use trading_aggregators.Prelude.{ℕ, String, Bool, true, not, ◌||◌, ◌≡◌, List, ◌==◌, is_empty}
use trading_aggregators.Error.{TradeError, sign, Result, ok, raise_if, map_err, ◌>>=◌, ◌>>◌}
use trading_aggregators.Evm.Types.{Address, Amount, TransactionHash, Bytes}

pub data TxKind : Type 0 where
  create : TxKind
  call : Address → TxKind

-- `TxEip1559`
pub record TxEip1559 : Type 0 where
  pub chain_id : ℕ
  pub nonce : ℕ
  pub gas_limit : ℕ
  pub max_fee_per_gas : ℕ
  pub max_priority_fee_per_gas : ℕ
  pub to : TxKind
  pub value : Amount
  pub access_list : List (Address × List ℕ)
  pub input : Bytes

-- A decoded transaction with its signature and hash.
pub record SignedTx : Type 0 where
  pub tx : TxEip1559
  pub signature : Bytes
  pub hash : TransactionHash

-- What the alloy crate does with such transactions; `eq` is their `PartialEq`.
pub record Alloy : Type 0 where
  pub eip2718_decode : Bytes → Result String (SignedTx × Bytes)
  pub eip2718_encode : TxEip1559 → Bytes → Bytes
  pub encode_for_signing : TxEip1559 → Bytes
  pub signature_hash : TxEip1559 → ℕ
  pub recover_signer : SignedTx → Result String Address
  pub eq : TxEip1559 → TxEip1559 → Bool

-- The crate derives that equality: equal transactions are the same.
abbrev pub IsEquality : Alloy → Type 0
IsEquality alloy = (a b : TxEip1559) → alloy.eq a b ≡ true → a ≡ b

module _ ⦃alloy : Alloy⦄ where
  pub encoded_for_signing : TxEip1559 → Bytes
  encoded_for_signing tx = alloy.encode_for_signing tx

  pub signing_hash : TxEip1559 → ℕ
  signing_hash tx = alloy.signature_hash tx

  pub encode_signed : TxEip1559 → Bytes → Bytes
  encode_signed tx signature = alloy.eip2718_encode tx signature

  unfoldable pub verify_signed : TxEip1559 → Bytes → Address → Result TradeError TransactionHash
  verify_signed tx signed wallet = do
    (decoded, remaining) ←
        map_err (λ _. sign "signed bytes are not EIP-1559") (alloy.eip2718_decode signed)
    raise_if (not (is_empty remaining) || not (alloy.eq decoded.tx tx))
        (sign "signed transaction differs from the prepared one")
    signer ← map_err (λ _. sign "cannot recover signer") (alloy.recover_signer decoded)
    raise_if (not (signer == wallet)) (sign "signed by another wallet")
    ok decoded.hash

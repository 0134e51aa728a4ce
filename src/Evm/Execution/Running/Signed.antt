-- ===== src/Evm/Execution/Running/Signed.antt =====
-- What the hash of a signed transaction says: `execute_transactions` of `src/evm/execution.rs` and
-- `verify_signed` of `src/evm/unsigned.rs`.
use trading_aggregators.Prelude.{◌≡◌, subst, sym, List, [], ◌∷◌, arith, inl, inr}
use trading_aggregators.Error.{sign, ok, Result-cases}
use trading_aggregators.Action.{lift, map_err, pure, ◌>>=◌, >>=-eq-ok}
use trading_aggregators.Evm.Types.{Address, TransactionHash, Bytes, Transaction, PreparedSwap}
use trading_aggregators.Evm.Network.{Network}
use trading_aggregators.Evm.Node.{Provider, pending_nonce}
use trading_aggregators.Evm.Unsigned.{Alloy, IsEquality, SignedTx, TxEip1559, TxKind, verify_signed}
use trading_aggregators.Evm.Execution.{filled, fill, gas_limit, fees}
use trading_aggregators.Evm.Execution.Running.{Signer, check_age, sign_next}

module _ ⦃alloy : Alloy⦄ ⦃network : Network⦄ where
  -- The fields that the prepared transaction fixes.
  abbrev pub DoesWhat : Transaction → TxEip1559 → Type 0
  DoesWhat tx done =
      (done.chain_id ≡ network.chain_id)
      × (done.to ≡ TxKind.call tx.to)
      × (done.value ≡ tx.value)
      × (done.input ≡ tx.input)
      × (done.access_list ≡ [])

  -- The hash is that of a transaction which the wallet signed and which does just what the prepared
  -- one asks for, on this chain.
  abbrev pub IsSignedFor : Address → Transaction → TransactionHash → Type 0
  IsSignedFor wallet tx hash =
      (signed : SignedTx) × (signed.hash ≡ hash)
      × (alloy.recover_signer signed ≡ ok wallet)
      × DoesWhat tx signed.tx

  -- The hashes are those of the first of the transactions, in order.
  abbrev pub IsPrefix : Address → List Transaction → List TransactionHash → Type 0
  IsPrefix wallet txs [] = Unit
  IsPrefix wallet [] (hash ∷ hashes) = ⊥
  IsPrefix wallet (tx ∷ txs) (hash ∷ hashes) =
      IsSignedFor wallet tx hash × IsPrefix wallet txs hashes

  verify_signed-eq :
      (tx : TxEip1559) (signed : Bytes) (wallet : Address) {hash : TransactionHash}
      → IsEquality alloy
      → verify_signed tx signed wallet ≡ ok hash
      → (found : SignedTx) × (found.hash ≡ hash)
        × (alloy.recover_signer found ≡ ok wallet)
        × (found.tx ≡ tx)
  unfolding verify_signed
  verify_signed-eq tx signed wallet {hash} lawful e =
      elim (Result-cases (alloy.eip2718_decode signed)) [
        | inl ((found, remaining), e₁) ↦ elim (Result-cases (alloy.recover_signer found)) [
          | inl (signer, e₂) ↦
              (found, ground arith, ground arith, lawful found.tx tx (ground arith))
          | inr (x, e₂) ↦ absurd (ground arith)
        ]
        | inr (x, e₁) ↦ absurd (ground arith)
      ]

  signed_for :
      (wallet : Address) (tx : Transaction) (unsigned : TxEip1559) {hash : TransactionHash}
      → DoesWhat tx unsigned
      → ((found : SignedTx) × (found.hash ≡ hash)
          × (alloy.recover_signer found ≡ ok wallet)
          × (found.tx ≡ unsigned))
      → IsSignedFor wallet tx hash
  signed_for wallet tx unsigned does (found, same_hash, recovered, same) =
      (found, same_hash, recovered, subst (DoesWhat tx) (sym same) does)

  module _ {W : Type 0} ⦃provider : Provider W⦄ where
    -- The fields of a filled transaction that the prepared one fixes.
    fill-eq :
        (tx : Transaction) (w w' : W) {done : TxEip1559}
        → fill tx w ≡ (ok done, w')
        → DoesWhat tx done
    unfolding fill
    fill-eq tx w w' {done} e =
        let (gas, w₁, r₁, e₁) =
          >>=-eq-ok (gas_limit tx tx.gas)
            (λ gas. fees tx >>= λ caps.
              pending_nonce tx.from >>= λ nonce. pure (filled tx gas caps nonce))
            w w' e in
        let (caps, w₂, r₂, e₂) =
          >>=-eq-ok (fees tx)
            (λ caps. pending_nonce tx.from >>= λ nonce. pure (filled tx gas caps nonce)) w₁ w' e₁ in
        let (nonce, w₃, r₃, e₃) =
          >>=-eq-ok (pending_nonce tx.from) (λ nonce. pure (filled tx gas caps nonce)) w₂ w' e₂ in
        ground arith

    pub sign_next-IsSignedFor :
        (prepared : PreparedSwap) (signer : Signer W) (tx : Transaction) (w w' : W) {signed : Bytes}
        {hash : TransactionHash}
        → IsEquality alloy
        → sign_next prepared signer tx w ≡ (ok (signed, hash), w')
        → IsSignedFor prepared.wallet tx hash
    unfolding sign_next
    sign_next-IsSignedFor prepared signer tx w w' {signed} {hash} lawful e =
        let (fresh, w₁, r₁, e₁) =
          >>=-eq-ok (check_age prepared)
            (λ _. fill tx >>= λ unsigned.
              map_err sign (signer prepared.wallet unsigned) >>= λ bytes.
              lift (verify_signed unsigned bytes prepared.wallet) >>= λ hash. pure (bytes, hash))
            w w' e in
        let (unsigned, w₂, r₂, e₂) =
          >>=-eq-ok (fill tx)
            (λ unsigned. map_err sign (signer prepared.wallet unsigned) >>= λ bytes.
              lift (verify_signed unsigned bytes prepared.wallet) >>= λ hash. pure (bytes, hash))
            w₁ w' e₁ in
        let (bytes, w₃, r₃, e₃) =
          >>=-eq-ok (map_err sign (signer prepared.wallet unsigned))
            (λ bytes.
              lift (verify_signed unsigned bytes prepared.wallet) >>= λ hash. pure (bytes, hash))
            w₂ w' e₂ in
        let (found_hash, w₄, r₄, e₄) =
          >>=-eq-ok (lift (verify_signed unsigned bytes prepared.wallet))
            (λ hash. pure (bytes, hash)) w₃ w' e₃ in
        let verified : verify_signed unsigned bytes prepared.wallet ≡ ok hash = ground arith in
        signed_for prepared.wallet tx unsigned (fill-eq tx w₁ w₂ r₂)
          (verify_signed-eq unsigned bytes prepared.wallet lawful verified)

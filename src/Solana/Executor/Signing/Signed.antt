-- ===== src/Solana/Executor/Signing/Signed.antt =====
-- What a transaction is signed with, and by whom.
use trading_aggregators.Prelude.{ℕ, ◌≡◌, Option, none, some, get_elem?, arith}
use trading_aggregators.Error.{sign as sign_error, ok}
use trading_aggregators.Action.{lift, map_err, pure, >>=-eq-ok, ◌>>=◌}
use trading_aggregators.Solana.Keys.{Pubkey}
use trading_aggregators.Solana.Transaction.{Transaction}
use trading_aggregators.Solana.GasSponsor.{GasSponsor}
use trading_aggregators.Solana.Executor.Signing.{
  SwapSigners, required_keys, user_signer_index, sign_transaction, sponsor_sign, with_signature,
}
use trading_aggregators.Solana.Executor.Signing.Required.{user_signer_index-eq-ok}

module _ {W : Type 0} where
  -- The sponsor, if there is one, signs what the wallet signed, at the first place.
  abbrev pub IsSponsorSigned :
      SwapSigners W → Option GasSponsor → Transaction → W → Transaction → W → Type 0
  IsSponsorSigned signers none tx w signed w' = (signed ≡ tx) × (w' ≡ w)
  IsSponsorSigned signers (some g) tx w signed w' =
      (signature : ℕ) × (signers.sponsor_signer g.wallet tx w ≡ (ok signature, w'))
      × (signed ≡ with_signature tx 0 signature)

  sponsor_sign-IsSponsorSigned :
      (signers : SwapSigners W) (g : Option GasSponsor) (tx : Transaction) (w w' : W)
      {signed : Transaction}
      → sponsor_sign signers tx g w ≡ (ok signed, w')
      → IsSponsorSigned signers g tx w signed w'
  unfolding sponsor_sign
  sponsor_sign-IsSponsorSigned signers none tx w w' e = (ground arith, ground arith)
  sponsor_sign-IsSponsorSigned signers (some g) tx w w' {signed} e =
      let (signature, w₁, e₁, k₁) =
        >>=-eq-ok (map_err (λ _. sign_error "sponsor") (signers.sponsor_signer g.wallet tx))
          (λ signature. pure (with_signature tx 0 signature)) w w' e in
      (signature, ground arith, ground arith)

  -- The wallet signs the transaction, its signature takes the wallet's place, and the sponsor follows.
  abbrev pub IsFullySigned : SwapSigners W → Pubkey → Transaction → W → Transaction → W → Type 0
  IsFullySigned signers wallet tx w signed w' =
      (index : ℕ) × (signature : ℕ) × (w₁ : W) × (get_elem? (required_keys tx) index ≡ some wallet)
      × (signers.user wallet tx w ≡ (ok signature, w₁))
      × IsSponsorSigned signers signers.sponsor (with_signature tx index signature) w₁ signed w'

  pub sign_transaction-IsFullySigned :
      (signers : SwapSigners W) (wallet : Pubkey) (tx : Transaction) (w w' : W)
      {signed : Transaction}
      → sign_transaction signers wallet tx w ≡ (ok signed, w')
      → IsFullySigned signers wallet tx w signed w'
  unfolding sign_transaction
  sign_transaction-IsFullySigned signers wallet tx w w' e =
      let (index, w₁, e₁, k₁) =
        >>=-eq-ok (lift (user_signer_index signers.sponsor wallet tx))
          (λ index. map_err (λ _. sign_error "user") (signers.user wallet tx) >>= λ signature.
            sponsor_sign signers (with_signature tx index signature) signers.sponsor)
          w w' e in
      let (signature, w₂, e₂, k₂) =
        >>=-eq-ok (map_err (λ _. sign_error "user") (signers.user wallet tx))
          (λ signature. sponsor_sign signers (with_signature tx index signature) signers.sponsor) w₁
          w' k₁ in
      let place : user_signer_index signers.sponsor wallet tx ≡ ok index = ground arith in
      (
        index,
        signature,
        w₂,
        (user_signer_index-eq-ok signers.sponsor wallet tx place).0,
        ground arith,
        sponsor_sign-IsSponsorSigned signers signers.sponsor (with_signature tx index signature) w₂
            w' k₂,
      )

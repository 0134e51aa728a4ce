-- ===== src/Solana/Executor/Signing.antt =====
-- `SwapSigners` of `src/solana/executor.rs`: who pays, who has to sign, and the signatures' places.
mod Tests
pub mod Required
pub mod Signed
use trading_aggregators.Prelude.{
  ℕ, zero, suc, ◌+◌, Bool, true, false, not, ◌||◌, ◌&&◌, Option, none, some, List, [], ◌∷◌, ◌==◌,
  any, take, set, String,
}
use trading_aggregators.Error.{
  TradeError, sign, Result, ok, err, raise_if, ok_or, ◌>>=◌ as ◌>>=ᵣ◌, ◌>>◌ as ◌>>ᵣ◌,
}
use trading_aggregators.Action.{Action, lift, pure, map_err, ◌>>=◌}
use trading_aggregators.Solana.Keys.{Pubkey}
use trading_aggregators.Solana.Transaction.{Transaction, Message}
use trading_aggregators.Solana.Chain.{Signer, PriceFeed}
use trading_aggregators.Solana.GasSponsor.{GasSponsor}

-- The signer and the price feed are trait objects inside the source's `GasSponsor`.
pub record SwapSigners (W : Type 0) : Type 0 where
  pub user : Signer W
  pub sponsor : Option GasSponsor
  pub sponsor_signer : Signer W
  pub price_feed : PriceFeed W

-- `SwapSigners::payer`
abbrev pub payer : Option GasSponsor → Pubkey → Pubkey
payer none wallet = wallet
payer (some sponsor) wallet = sponsor.wallet

abbrev pub is_first : Pubkey → List Pubkey → Bool
is_first key [] = false
is_first key (k ∷ ks) = k == key

-- `iter().position(|key| key == wallet)`
abbrev pub behind : Option ℕ → Option ℕ
behind none = none
behind (some i) = some (suc i)

abbrev pub position : Pubkey → List Pubkey → Option ℕ
position key [] = none
position key (k ∷ ks) = elim (k == key) [ true ↦ some 0 | false ↦ behind (position key ks) ]

abbrev pub required_keys : Transaction → List Pubkey
required_keys tx = take tx.message.num_required_signatures tx.message.static_account_keys

abbrev pub unexpected : TradeError
unexpected = sign "transaction requires unexpected signers"

-- `SwapSigners::user_signer_index`; the source's `unwrap` is the case that the test before it excludes.
unfoldable pub user_signer_index : Option GasSponsor → Pubkey → Transaction → Result TradeError ℕ
user_signer_index sponsor wallet tx =
    raise_if
      (not (is_first (payer sponsor wallet) (required_keys tx))
        || not (any (λ k. k == wallet) (required_keys tx))
        || any (λ k. not (k == wallet) && not (k == payer sponsor wallet)) (required_keys tx))
      unexpected
    >>ᵣ ok_or (position wallet (required_keys tx)) unexpected

abbrev pub with_signature : Transaction → ℕ → ℕ → Transaction
with_signature tx index signature = record tx { signatures = set tx.signatures index signature }

module _ {W : Type 0} where
  unfoldable pub sponsor_sign :
      SwapSigners W → Transaction → Option GasSponsor → Action W TradeError Transaction
  sponsor_sign signers tx none = pure tx
  sponsor_sign signers tx (some g) =
      map_err (λ _. sign "sponsor") (signers.sponsor_signer g.wallet tx) >>= λ signature.
      pure (with_signature tx 0 signature)

  -- `SwapSigners::sign`: the signed transaction, which the source changes in place.
  unfoldable pub sign_transaction :
      SwapSigners W → Pubkey → Transaction → Action W TradeError Transaction
  sign_transaction signers wallet tx = do
    index ← lift (user_signer_index signers.sponsor wallet tx)
    signature ← map_err (λ _. sign "user") (signers.user wallet tx)
    sponsor_sign signers (with_signature tx index signature) signers.sponsor

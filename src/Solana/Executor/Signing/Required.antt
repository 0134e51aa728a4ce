-- ===== src/Solana/Executor/Signing/Required.antt =====
-- Which signatures a transaction may ask for.
use trading_aggregators.Prelude.{
  ℕ, suc, ◌≡◌, ◌⊎◌, inl, inr, subst, sym, false, not, ◌&&◌, Option, some, List, [], ◌∷◌, ◌==◌, any,
  All, get_elem?, Bool-cases, Option-cases, arith,
}
use trading_aggregators.Error.{ok}
use trading_aggregators.Solana.Keys.{Pubkey}
use trading_aggregators.Solana.Transaction.{Transaction}
use trading_aggregators.Solana.GasSponsor.{GasSponsor}
use trading_aggregators.Solana.Executor.Signing.{payer, position, required_keys, user_signer_index}

position-get :
    (key : Pubkey) (ks : List Pubkey) (found : ℕ)
    → position key ks ≡ some found
    → get_elem? ks found ≡ some key
position-get key [] found e = absurd (ground arith)
position-get key (k ∷ ks) found e = elim (Bool-cases (k == key)) [
  | inl same ↦ ground arith
  | inr other ↦ elim (Option-cases (position key ks)) [
    | inl missing ↦ absurd (ground arith)
    | inr (i, there) ↦
        let ih = position-get key ks i there in
        let e' : found ≡ suc i = ground arith in
        subst (λ j. get_elem? (k ∷ ks) j ≡ some key) (sym e') ih
  ]
]

any-All :
    (a b : Pubkey) (ks : List Pubkey)
    → any (λ k. not (k == a) && not (k == b)) ks ≡ false
    → All (λ k. (k ≡ a) ⊎ (k ≡ b)) ks
any-All a b [] e = ground arith
any-All a b (k ∷ ks) e = ground (arith, any-All a b ks)

-- A transaction whose user signature has a place asks nobody but the wallet and the fee payer to sign,
-- the payer first, and the place is the wallet's.
pub user_signer_index-eq-ok :
    (sponsor : Option GasSponsor) (wallet : Pubkey) (tx : Transaction) {index : ℕ}
    → user_signer_index sponsor wallet tx ≡ ok index
    → (get_elem? (required_keys tx) index ≡ some wallet)
      × (get_elem? (required_keys tx) 0 ≡ some (payer sponsor wallet))
      × All (λ k. (k ≡ wallet) ⊎ (k ≡ payer sponsor wallet)) (required_keys tx)
unfolding user_signer_index
user_signer_index-eq-ok sponsor wallet tx {index} e = ground (
  arith,
  position-get wallet (required_keys tx) index,
  any-All wallet (payer sponsor wallet) (required_keys tx),
)

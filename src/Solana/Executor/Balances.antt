-- ===== src/Solana/Executor/Balances.antt =====
-- `output_balance`, `token_balance` and `token_account_amount` of `src/solana/executor.rs`.
use trading_aggregators.Prelude.{ℕ, String, Option, none, some, List}
use trading_aggregators.Error.{TradeError, decode, Result, ok, ok_or, to_option}
use trading_aggregators.Action.{Action, lift, pure, map_err, ◌>>=◌}
use trading_aggregators.Solana.Keys.{Pubkey, usdc_mint, token_program}
use trading_aggregators.Solana.Types.{buy, sell, sol, usdc, Trade}
use trading_aggregators.Solana.Common.{Platform, ata}
use trading_aggregators.Solana.Node.{
  Account, AccountReads, Borsh, decode_account, Reader, done, ◌>>=◌ as ◌>>=ᵣ◌,
}
use trading_aggregators.Solana.Chain.{Chain}

-- `TokenAccountHead`
pub record TokenAccountHead : Type 0 where
  pub mint : Pubkey
  pub owner : Pubkey
  pub amount : ℕ

pub read_head : ⦃b : Borsh⦄ → Reader TokenAccountHead
read_head ⦃b⦄ = b.read_key >>=ᵣ λ mint. b.read_key >>=ᵣ λ owner.
    b.read_u64 >>=ᵣ λ amount. done (record { mint = mint; owner = owner; amount = amount })

pub token_account_amount : ⦃b : Borsh⦄ → List ℕ → Option ℕ
token_account_amount bytes = elim (decode_account read_head bytes) [
  | none ↦ none
  | some head ↦ some head.amount
]

-- A missing account holds zero.
pub balance_in : ⦃b : Borsh⦄ → Option Account → Result TradeError ℕ
balance_in none = ok 0
balance_in (some account) =
    ok_or (token_account_amount account.bytes) (decode "token account" "account")

module _ {W : Type 0} ⦃p : Platform⦄ ⦃b : Borsh⦄ ⦃rpc : AccountReads W⦄ where
  pub token_balance : Pubkey → Action W TradeError ℕ
  token_balance account =
      map_err (λ _. TradeError.rpc "token balance") (rpc.get_account_with_commitment account)
      >>= λ found. lift (balance_in found)

  -- The account that receives what a trade pays out; the token's program owns its mint.
  pub output_account : Trade → Action W String Pubkey
  output_account t = elim t.side [
    | sell ↦ pure (ata t.wallet usdc_mint token_program)
    | buy ↦ rpc.get_account t.mint >>= λ mint. pure (ata t.wallet t.mint mint.owner)
  ]

  abbrev pub unknown_of : {E A : Type 0} → Action W E A → W → Option A × W
  unknown_of m w = let (r, w') = m w in (to_option r, w')

  pub token_output : Trade → Action W TradeError ℕ
  token_output t = map_err (λ _. TradeError.rpc "account") (output_account t) >>= token_balance

  -- `none` is unknown, not zero.
  pub output_balance : ⦃chain : Chain W⦄ → Trade → W → Option ℕ × W
  output_balance ⦃chain⦄ t = elim t.side [
    | buy ↦ unknown_of (token_output t)
    | sell ↦ elim t.settlement [
      | sol ↦ unknown_of (chain.get_balance t.wallet)
      | usdc ↦ unknown_of (token_output t)
    ]
  ]

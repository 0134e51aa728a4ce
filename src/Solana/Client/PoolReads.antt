-- ===== src/Solana/Client/PoolReads.antt =====
-- The pool prices of `src/solana/client/usd_value.rs`, which are for display: a failed read gives none.
use trading_aggregators.Prelude.{
  ℕ, not, Option, none, some, List, [], ◌∷◌, ◌==◌, or_else, if◌then◌else◌,
}
use trading_aggregators.Error.{
  Result, ok, err, ok_or, ensure, to_option, ◌>>=◌ as ◌>>=ᵣ◌, ◌>>◌ as ◌>>ᵣ◌,
}
use trading_aggregators.Action.{Action, AnyError, other, lift, pure, fail, ◌>>=◌}
use trading_aggregators.Floats.{F64, Floats, f_one, f_million}
use trading_aggregators.Solana.Keys.{Pubkey, wsol, usdc_mint}
use trading_aggregators.Solana.Types.{Trade, QuoteSource, settlement_mint}
use trading_aggregators.Solana.Common.{Platform}
use trading_aggregators.Solana.Node.{Account, AccountReads, Borsh}
use trading_aggregators.Solana.Executor.Balances.{token_account_amount}
use trading_aggregators.Solana.PumpFun.Instructions.{
  bonding_curve_pda, program_id as pumpfun_program,
}
use trading_aggregators.Solana.PumpFun.SpotPrice.{curve_spot_price}
use trading_aggregators.Solana.PumpSwap.Instructions.{
  canonical_pool_pda, program_id as pumpswap_program,
}
use trading_aggregators.Solana.PumpSwap.SpotPrice.{addresses, spot_price}
use trading_aggregators.Solana.PumpSwap.Venue.{
  State, on_world, decode_vaults, sol_usdc_price_accounts,
}
use trading_aggregators.Solana.Client.UsdValues.{PoolPrices}
use trading_aggregators.Solana.Client.Routing.{Client}

-- `collect::<Option<_>>`
present : {A : Type 0} → List (Option A) → Option (List A)
present [] = some []
present (none ∷ xs) = none
present (some x ∷ xs) = elim (present xs) [ none ↦ none | some ys ↦ some (x ∷ ys) ]

-- `try_into` an array of two or of four.
abbrev two : {A : Type 0} → List A → Option (A × A)
two (a ∷ b ∷ []) = some (a, b)
two _ = none

abbrev four : {A : Type 0} → List A → Option (A × A × A × A)
four (a ∷ b ∷ c ∷ d ∷ []) = some (a, b, c, d)
four _ = none

all_present : {A B : Type 0} → (List A → Option B) → List (Option A) → Result AnyError B
unfolding present
all_present try_into accounts =
    ok_or (present accounts) (other "pricing account not found") >>=ᵣ λ found.
    ok_or (try_into found) (other "unexpected pricing account count")

default_pool : ⦃p : Platform⦄ → Trade → QuoteSource → Option Pubkey
default_pool t QuoteSource.pump_fun = some (bonding_curve_pda t.mint)
default_pool t QuoteSource.pump_swap = some (canonical_pool_pda t.mint)
default_pool t _ = none

usd_per_unit : ⦃f : Floats⦄ → Pubkey → F64 → Result AnyError F64
usd_per_unit ⦃f⦄ mint usd_per_lamport =
    if mint == wsol
    then ok usd_per_lamport
    else if mint == usdc_mint
    then ok (f.div f_one f_million)
    else err (other "no USD price")

-- `token_account_amount(..)?`
amount_in : ⦃b : Borsh⦄ → Account → Result AnyError ℕ
amount_in account = ok_or (token_account_amount account.bytes) (other "borsh")

-- The SOL/USDC pool's base is USDC and its quote is SOL.
usd_per_lamport : ⦃b : Borsh⦄ ⦃f : Floats⦄ → Account → Account → Account → Result AnyError F64
unfolding amount_in
usd_per_lamport ⦃b⦄ ⦃f⦄ pool_account usdc_vault sol_vault =
    decode_vaults pool_account.bytes usdc_mint >>=ᵣ λ pool.
    ensure (pool.quote_mint == wsol) (other "SOL/USDC pool must be quoted in SOL")
    >>ᵣ (amount_in usdc_vault >>=ᵣ λ usdc. amount_in sol_vault >>=ᵣ λ sol.
        spot_price pool usdc sol >>=ᵣ λ lamports_per_usdc_unit.
        ok (f.div f_one (f.mul lamports_per_usdc_unit f_million)))

module _ {W : Type 0} ⦃p : Platform⦄ ⦃b : Borsh⦄ ⦃f : Floats⦄ ⦃rpc : AccountReads W⦄ where
  -- A PumpSwap pool keeps its reserves in vaults, which a second read gets.
  pumpswap_spot : Pubkey → List ℕ → Action (State W) AnyError (Pubkey × F64)
  unfolding all_present amount_in
  pumpswap_spot mint pool_data = do
    pool ← lift (decode_vaults pool_data mint)
    vaults ← on_world (rpc.get_multiple_accounts (addresses pool))
    (base_vault, quote_vault) ← lift (all_present two vaults)
    base_balance ← lift (amount_in base_vault)
    quote_balance ← lift (amount_in quote_vault)
    spot ← lift (spot_price pool base_balance quote_balance)
    pure (pool.quote_mint, spot)

  -- The quote's mint and the spot price in the pool, whose owner says which venue it is of.
  spot_in : Trade → Pubkey → Account → Action (State W) AnyError (Pubkey × F64)
  unfolding pumpswap_spot
  spot_in t pool account =
      if account.owner == pumpfun_program
      then lift (curve_spot_price pool t.mint account.bytes >>=ᵣ λ spot. ok (wsol, spot))
      else if account.owner == pumpswap_program
      then pumpswap_spot t.mint account.bytes
      else fail (other "no spot price for pools of this owner")

  read_pool_prices : Trade → Pubkey → Action (State W) AnyError PoolPrices
  unfolding spot_in usd_per_lamport usd_per_unit all_present
  read_pool_prices t pool = do
    (sol_usdc_pool, usdc_vault, sol_vault) ← sol_usdc_price_accounts
    accounts ←
        on_world (rpc.get_multiple_accounts (pool ∷ sol_usdc_pool ∷ usdc_vault ∷ sol_vault ∷ []))
    (pool_account, sol_usdc, usdc, sol) ← lift (all_present four accounts)
    per_lamport ← lift (usd_per_lamport sol_usdc usdc sol)
    (quote_mint, token_spot) ← spot_in t pool pool_account
    token_unit ← lift (usd_per_unit quote_mint per_lamport)
    settlement_unit ← lift (usd_per_unit (settlement_mint t.settlement) per_lamport)
    pure (record { token = f.mul token_spot token_unit; settlement = settlement_unit })

  unfoldable pool_prices : Client → Trade → QuoteSource → State W → Option PoolPrices × State W
  unfolding read_pool_prices default_pool
  pool_prices client t source s =
      if not client.usd_value_enabled
      then (none, s)
      else elim (or_else t.pool (default_pool t source)) [
        | none ↦ (none, s)
        | some pool ↦ let (prices, s') = read_pool_prices t pool s in (to_option prices, s')
      ]

-- ===== src/Solana/PumpSwap/Venue.antt =====
-- The PumpSwap adapter: caches, account reads, quotes and prepared swaps.
pub mod Preparing
use trading_aggregators.Prelude.{
  ℕ, String, Bool, true, false, not, ◌&&◌, Option, none, some, List, [], ◌∷◌, ◌++◌, ◌==◌,
  if◌then◌else◌, unwrap_or, or_else, filter,
}
use trading_aggregators.Prelude.Int.{ℤ}
use trading_aggregators.Error.{
  Result, ok, err, ok_or, ensure, raise_if, map_err as map_err_result, ◌>>=◌ as ◌>>=ᵣ◌,
  ◌>>◌ as ◌>>ᵣ◌,
}
use trading_aggregators.Action.{Action, AnyError, other, lift, pure, ◌>>=◌, ◌>>◌}
use trading_aggregators.Solana.Keys.{
  Pubkey, Instruction, default_key, token_program, wsol, usdc_mint,
}
use trading_aggregators.Solana.Types.{
  Side, buy, sell, is_usdc, QuoteSource, NativeMarket, Trade, Quote, PreparedSwap, v0,
}
use trading_aggregators.Solana.Common.{Platform, ata}
use trading_aggregators.Solana.Node.{Account, AccountReads, Borsh, decode_account}
use trading_aggregators.Solana.PumpSwap.Layout.{
  PoolAccount, GlobalConfigAccount, read_global_config, decode_pool, effective_quote_reserves,
}
use trading_aggregators.Solana.PumpSwap.Quote.{FeeSettings, PoolState, compute_quote}
use trading_aggregators.Solana.PumpSwap.Instructions.{
  program_id, fee_program_id, canonical_pool_pda, global_config_pda, event_authority_pda,
  global_volume_pda, fee_config_pda, buy_instructions, sell_instructions,
}

-- The world and the two cells of `PumpSwap` that are written once; the second keeps both vaults.
pub record State (W : Type 0) : Type 0 where
  pub fee_cache : Option FeeSettings
  pub vault_cache : Option (Pubkey × Pubkey)
  pub sol_usdc_pool : Pubkey
  pub world : W

abbrev pub default_sol_usdc_pool : Pubkey
default_sol_usdc_pool = 0xe8a324d0c15cf5ea666a60a7af6901fde67c735b2967526d094334a4b28123b9

abbrev with_sol_usdc_pool : {W : Type 0} → State W → Pubkey → State W
with_sol_usdc_pool s pool = record s { sol_usdc_pool = pool }

abbrev pub sol_only : String
sol_only = "pumpswap trades SOL-paired pools only; use an aggregator for USDC"

abbrev pub on_world : {W A : Type 0} → Action W String A → Action (State W) AnyError A
on_world m s = let (r, w) = m s.world in (map_err_result other r, record s { world = w })

abbrev pub first_key : List Pubkey → Pubkey
first_key [] = 0
first_key (k ∷ ks) = k

abbrev pub settings_of : GlobalConfigAccount → FeeSettings
settings_of g = record {
  standard_protocol_recipient = first_key g.protocol_fee_recipients;
  mayhem_protocol_recipient = g.reserved_fee_recipient;
  buyback_recipient = first_key g.buyback_fee_recipients;
  lp_bps = g.lp_fee_basis_points;
  protocol_bps = g.protocol_fee_basis_points;
  creator_bps = g.coin_creator_fee_basis_points;
}

pub record PoolVaults : Type 0 where
  pub quote_mint : Pubkey
  pub base_vault : Pubkey
  pub quote_vault : Pubkey
  pub virtual_quote_reserves : ℤ

-- `PoolVaults::decode`
pub decode_vaults : ⦃b : Borsh⦄ → List ℕ → Pubkey → Result AnyError PoolVaults
decode_vaults pool_data base_mint = ok_or (decode_pool pool_data) (other "borsh") >>=ᵣ λ decoded.
    ensure (decoded.0.base_mint == base_mint) (other "pumpswap: pool is not for the mint")
    >>ᵣ ok (record {
      quote_mint = decoded.0.quote_mint;
      base_vault = decoded.0.pool_base_token_account;
      quote_vault = decoded.0.pool_quote_token_account;
      virtual_quote_reserves = decoded.1;
    })

-- The market behind the pool's account.
market_of : ⦃b : Borsh⦄ → Pubkey → Pubkey → Option Account → Result AnyError (Option NativeMarket)
market_of address mint none = ok none
market_of address mint (some account) =
    if account.owner == program_id
    then (ok_or (decode_pool account.bytes) (other "borsh") >>=ᵣ λ decoded. ok (
        if decoded.0.base_mint == mint && decoded.0.quote_mint == wsol
        then some (record { source = QuoteSource.pump_swap; pool = address })
        else none))
    else ok none

-- The owners of a pool's two mints, which are their token programs.
token_programs : List (Option Account) → Result AnyError (Pubkey × Pubkey)
token_programs (some base ∷ some quote ∷ rest) = ok (base.owner, quote.owner)
token_programs (none ∷ rest) = err (other "pumpswap: base mint not found")
token_programs _ = err (other "pumpswap: quote mint not found")

-- Every set recipient and its wrapped-SOL account.
with_atas : ⦃p : Platform⦄ → List Pubkey → List Pubkey
with_atas [] = []
with_atas (r ∷ rs) = r ∷ ata r wsol token_program ∷ with_atas rs

-- The instructions of a prepared swap.
swap_instructions :
    ⦃p : Platform⦄ → Trade → Pubkey → PoolState → FeeSettings → ℕ → Side → List Instruction
swap_instructions t address pool fees min_out buy =
    buy_instructions t address pool fees t.amount min_out
swap_instructions t address pool fees min_out sell = sell_instructions t address pool fees min_out

module _ {W : Type 0} ⦃p : Platform⦄ ⦃b : Borsh⦄ ⦃rpc : AccountReads W⦄ where
  abbrev cached : Action (State W) AnyError (Option FeeSettings)
  cached s = (ok s.fee_cache, s)

  -- `fee_settings.set(f)` keeps an earlier value.
  abbrev fill_cache : FeeSettings → Action (State W) AnyError (Unit {0})
  fill_cache f s = (ok tt, record s { fee_cache = or_else s.fee_cache (some f) })

  -- `get_or_init`, and the pool that the state names.
  abbrev fill_vaults : Pubkey × Pubkey → Action (State W) AnyError (Pubkey × Pubkey)
  fill_vaults v s =
      (ok (unwrap_or s.vault_cache v), record s { vault_cache = some (unwrap_or s.vault_cache v) })

  abbrev pool_and_vaults : Action (State W) AnyError (Pubkey × Option (Pubkey × Pubkey))
  pool_and_vaults s = (ok (s.sol_usdc_pool, s.vault_cache), s)

  -- The SOL/USDC pool, its USDC vault and its SOL vault.
  pub sol_usdc_price_accounts : Action (State W) AnyError (Pubkey × Pubkey × Pubkey)
  sol_usdc_price_accounts = do
    (pool, hit) ← pool_and_vaults
    vaults ← elim hit [
      | some v ↦ pure v
      | none ↦ do
        account ← on_world (rpc.get_account pool)
        decoded ← lift (decode_vaults account.bytes usdc_mint)
        fill_vaults (decoded.base_vault, decoded.quote_vault)
    ]
    pure (pool, vaults.0, vaults.1)

  pub fee_settings : Action (State W) AnyError FeeSettings
  fee_settings = do
    hit ← cached
    elim hit [
      | some f ↦ pure f
      | none ↦ do
        account ← on_world (rpc.get_account global_config_pda)
        global ← lift (ok_or (decode_account read_global_config account.bytes) (other "borsh"))
        fill_cache (settings_of global)
        pure (settings_of global)
    ]

  pub shared_lookup_addresses : Action (State W) AnyError (List Pubkey)
  unfolding with_atas
  shared_lookup_addresses = do
    account ← on_world (rpc.get_account global_config_pda)
    global ← lift (ok_or (decode_account read_global_config account.bytes) (other "borsh"))
    let recipients =
        global.protocol_fee_recipients
        ++ (global.reserved_fee_recipient
            ∷ (global.reserved_fee_recipients ++ global.buyback_fee_recipients))
    pure (
        program_id
        ∷ fee_program_id
        ∷ global_config_pda
        ∷ event_authority_pda
        ∷ global_volume_pda
        ∷ fee_config_pda
        ∷ with_atas (filter (λ key. not (key == default_key)) recipients))

  pub find_market : Pubkey → Action (State W) AnyError (Option NativeMarket)
  unfolding market_of
  find_market mint = do
    response ← on_world (rpc.get_account_with_commitment (canonical_pool_pda mint))
    lift (market_of (canonical_pool_pda mint) mint response)

  -- The reserve texts of both vaults are parsed only after both were read.
  pub load_pool : Pubkey → Pubkey → Action (State W) AnyError PoolState
  unfolding token_programs
  load_pool pool_address mint = do
    account ← on_world (rpc.get_account pool_address)
    (pool, virtual) ← lift (ok_or (decode_pool account.bytes) (other "pumpswap: bad pool"))
    lift (
        raise_if (not (pool.base_mint == mint))
          (other "pumpswap: pool base mint != requested mint"))
    mints ← on_world (rpc.get_multiple_accounts (pool.base_mint ∷ pool.quote_mint ∷ []))
    (base_program, quote_program) ← lift (token_programs mints)
    base_text ← on_world (rpc.get_token_account_balance pool.pool_base_token_account)
    quote_text ← on_world (rpc.get_token_account_balance pool.pool_quote_token_account)
    base_balance ← lift (ok_or (rpc.parse_u64 base_text) (other "parse"))
    quote_balance ← lift (ok_or (rpc.parse_u64 quote_text) (other "parse"))
    quote_reserves ← lift (effective_quote_reserves quote_balance virtual)
    pure (record {
      coin_creator = pool.coin_creator;
      base_mint = pool.base_mint;
      quote_mint = pool.quote_mint;
      base_vault = pool.pool_base_token_account;
      quote_vault = pool.pool_quote_token_account;
      base_reserves = base_balance;
      quote_reserves = quote_reserves;
      is_mayhem = pool.is_mayhem_mode;
      is_cashback = pool.is_cashback_coin;
      base_token_program = base_program;
      quote_token_program = quote_program;
    })

  pub load_sol_pool : Trade → Action (State W) AnyError (Pubkey × PoolState × FeeSettings)
  load_sol_pool t = do
    lift (ensure (not (is_usdc t.settlement)) (other sol_only))
    let address = unwrap_or t.pool (canonical_pool_pda t.mint)
    pool ← load_pool address t.mint
    lift (ensure (pool.quote_mint == wsol) (other sol_only))
    fees ← fee_settings
    pure (address, pool, fees)

  -- `<PumpSwap as Dex>::quote` and `::prepare_swap`.
  pub quote : Trade → Action (State W) AnyError Quote
  quote t = do
    (address, pool, fees) ← load_sol_pool t
    pure (compute_quote pool fees t.side t.amount t.slippage_bps)

  pub prepare_swap : Trade → Action (State W) AnyError PreparedSwap
  unfolding swap_instructions
  prepare_swap t = do
    (address, pool, fees) ← load_sol_pool t
    let q = compute_quote pool fees t.side t.amount t.slippage_bps
    pure (record {
      venue = "pumpswap";
      quote = q;
      instructions = swap_instructions t address pool fees q.min_out t.side;
      lookup_tables = [];
      format = v0;
    })

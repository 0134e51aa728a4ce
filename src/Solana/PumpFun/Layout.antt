-- ===== src/Solana/PumpFun/Layout.antt =====
-- The accounts that Pump.fun stores, as `src/solana/dexes/pumpfun/mod.rs` decodes them.
use trading_aggregators.Prelude.{
  ℕ, ◌+◌, ◌-◌, ◌*◌, Bool, Option, List, ◌++◌, ◌||◌, ◌==◌, length, replicate, max,
}
use trading_aggregators.Solana.Keys.{Pubkey, default_key, wsol}
use trading_aggregators.Solana.Node.{Reader, ◌>>=◌, done, Borsh, read_keys, decode_account}

-- discriminator, 5 u64 amounts, complete, creator, 2 flags, quote mint.
abbrev pub bonding_curve_len : ℕ
bonding_curve_len = 8 + 5 * 8 + 1 + 32 + 1 + 1 + 32

pub record BondingCurveAccount : Type 0 where
  pub discriminator : ℕ
  pub virtual_token_reserves : ℕ
  pub virtual_quote_reserves : ℕ
  pub real_token_reserves : ℕ
  pub real_quote_reserves : ℕ
  pub token_total_supply : ℕ
  pub complete : Bool
  pub creator : Pubkey
  pub is_mayhem_mode : Bool
  pub is_cashback_coin : Bool
  pub quote_mint : Pubkey

pub record GlobalAccount : Type 0 where
  pub discriminator : ℕ
  pub initialized : Bool
  pub authority : Pubkey
  pub fee_recipient : Pubkey
  pub initial_virtual_token_reserves : ℕ
  pub initial_virtual_sol_reserves : ℕ
  pub initial_real_token_reserves : ℕ
  pub token_total_supply : ℕ
  pub fee_basis_points : ℕ
  pub withdraw_authority : Pubkey
  pub enable_migrate : Bool
  pub pool_migration_fee : ℕ
  pub creator_fee_basis_points : ℕ
  pub fee_recipients : List Pubkey
  pub set_creator_authority : Pubkey
  pub admin_set_creator_authority : Pubkey
  pub create_v2_enabled : Bool
  pub whitelist_pda : Pubkey
  pub reserved_fee_recipient : Pubkey
  pub mayhem_mode_enabled : Bool
  pub reserved_fee_recipients : List Pubkey
  pub is_cashback_enabled : Bool
  pub buyback_fee_recipients : List Pubkey

-- `BondingCurveAccount::is_sol_quoted`
pub is_sol_quoted : BondingCurveAccount → Bool
is_sol_quoted c = c.quote_mint == default_key || c.quote_mint == wsol

module _ ⦃b : Borsh⦄ where
  -- The derived layout: the fields in their order.
  pub read_curve : Reader BondingCurveAccount
  read_curve = do
    discriminator ← b.read_u64
    virtual_token ← b.read_u64
    virtual_quote ← b.read_u64
    real_token ← b.read_u64
    real_quote ← b.read_u64
    supply ← b.read_u64
    complete ← b.read_bool
    creator ← b.read_key
    mayhem ← b.read_bool
    cashback ← b.read_bool
    quote_mint ← b.read_key
    done (record {
      discriminator = discriminator;
      virtual_token_reserves = virtual_token;
      virtual_quote_reserves = virtual_quote;
      real_token_reserves = real_token;
      real_quote_reserves = real_quote;
      token_total_supply = supply;
      complete = complete;
      creator = creator;
      is_mayhem_mode = mayhem;
      is_cashback_coin = cashback;
      quote_mint = quote_mint;
    })

  pub read_global : Reader GlobalAccount
  read_global = do
    discriminator ← b.read_u64
    initialized ← b.read_bool
    authority ← b.read_key
    fee_recipient ← b.read_key
    initial_virtual_token ← b.read_u64
    initial_virtual_sol ← b.read_u64
    initial_real_token ← b.read_u64
    supply ← b.read_u64
    fee_bps ← b.read_u64
    withdraw ← b.read_key
    migrate ← b.read_bool
    migration_fee ← b.read_u64
    creator_bps ← b.read_u64
    recipients ← read_keys 7
    set_creator ← b.read_key
    admin_set_creator ← b.read_key
    create_v2 ← b.read_bool
    whitelist ← b.read_key
    reserved ← b.read_key
    mayhem ← b.read_bool
    reserved_recipients ← read_keys 7
    cashback ← b.read_bool
    buyback ← read_keys 8
    done (record {
      discriminator = discriminator;
      initialized = initialized;
      authority = authority;
      fee_recipient = fee_recipient;
      initial_virtual_token_reserves = initial_virtual_token;
      initial_virtual_sol_reserves = initial_virtual_sol;
      initial_real_token_reserves = initial_real_token;
      token_total_supply = supply;
      fee_basis_points = fee_bps;
      withdraw_authority = withdraw;
      enable_migrate = migrate;
      pool_migration_fee = migration_fee;
      creator_fee_basis_points = creator_bps;
      fee_recipients = recipients;
      set_creator_authority = set_creator;
      admin_set_creator_authority = admin_set_creator;
      create_v2_enabled = create_v2;
      whitelist_pda = whitelist;
      reserved_fee_recipient = reserved;
      mayhem_mode_enabled = mayhem;
      reserved_fee_recipients = reserved_recipients;
      is_cashback_enabled = cashback;
      buyback_fee_recipients = buyback;
    })

  -- Data that is shorter than the current layout is filled up with zeros.
  pub decode_curve : List ℕ → Option BondingCurveAccount
  decode_curve bytes =
      decode_account read_curve
        (bytes ++ replicate (max (length bytes) bonding_curve_len - length bytes) 0)

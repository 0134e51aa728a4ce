-- ===== src/Solana/PumpSwap/Layout.antt =====
-- The accounts that PumpSwap stores, as `src/solana/dexes/pumpswap/mod.rs` decodes them.
mod Tests
pub mod Reserves
use trading_aggregators.Prelude.{
  ℕ, suc, ◌+◌, ◌-◌, ◌^◌, Bool, Option, none, some, List, [], ◌∷◌, ltb, leb, if◌then◌else◌,
}
use trading_aggregators.Prelude.Int.{ℤ, pos, negsuc}
use trading_aggregators.Error.{Result, ok, err}
use trading_aggregators.Action.{AnyError, other}
use trading_aggregators.Solana.Keys.{Pubkey}
use trading_aggregators.Solana.Node.{Reader, ◌>>=◌, done, Borsh, read_keys}

pub record PoolAccount : Type 0 where
  pub discriminator : ℕ
  pub pool_bump : ℕ
  pub index : ℕ
  pub creator : Pubkey
  pub base_mint : Pubkey
  pub quote_mint : Pubkey
  pub lp_mint : Pubkey
  pub pool_base_token_account : Pubkey
  pub pool_quote_token_account : Pubkey
  pub lp_supply : ℕ
  pub coin_creator : Pubkey
  pub is_mayhem_mode : Bool
  pub is_cashback_coin : Bool

pub record GlobalConfigAccount : Type 0 where
  pub discriminator : ℕ
  pub admin : Pubkey
  pub lp_fee_basis_points : ℕ
  pub protocol_fee_basis_points : ℕ
  pub disable_flags : ℕ
  pub protocol_fee_recipients : List Pubkey
  pub coin_creator_fee_basis_points : ℕ
  pub admin_set_coin_creator_authority : Pubkey
  pub whitelist_pda : Pubkey
  pub reserved_fee_recipient : Pubkey
  pub mayhem_mode_enabled : Bool
  pub reserved_fee_recipients : List Pubkey
  pub is_cashback_enabled : Bool
  pub buyback_fee_recipients : List Pubkey

module _ ⦃b : Borsh⦄ where
  pub read_pool : Reader PoolAccount
  read_pool = do
    discriminator ← b.read_u64
    bump ← b.read_u8
    index ← b.read_u16
    creator ← b.read_key
    base_mint ← b.read_key
    quote_mint ← b.read_key
    lp_mint ← b.read_key
    base_vault ← b.read_key
    quote_vault ← b.read_key
    supply ← b.read_u64
    coin_creator ← b.read_key
    mayhem ← b.read_bool
    cashback ← b.read_bool
    done (record {
      discriminator = discriminator;
      pool_bump = bump;
      index = index;
      creator = creator;
      base_mint = base_mint;
      quote_mint = quote_mint;
      lp_mint = lp_mint;
      pool_base_token_account = base_vault;
      pool_quote_token_account = quote_vault;
      lp_supply = supply;
      coin_creator = coin_creator;
      is_mayhem_mode = mayhem;
      is_cashback_coin = cashback;
    })

  pub read_global_config : Reader GlobalConfigAccount
  read_global_config = do
    discriminator ← b.read_u64
    admin ← b.read_key
    lp_bps ← b.read_u64
    protocol_bps ← b.read_u64
    flags ← b.read_u8
    recipients ← read_keys 8
    creator_bps ← b.read_u64
    set_creator ← b.read_key
    whitelist ← b.read_key
    reserved ← b.read_key
    mayhem ← b.read_bool
    reserved_recipients ← read_keys 7
    cashback ← b.read_bool
    buyback ← read_keys 8
    done (record {
      discriminator = discriminator;
      admin = admin;
      lp_fee_basis_points = lp_bps;
      protocol_fee_basis_points = protocol_bps;
      disable_flags = flags;
      protocol_fee_recipients = recipients;
      coin_creator_fee_basis_points = creator_bps;
      admin_set_coin_creator_authority = set_creator;
      whitelist_pda = whitelist;
      reserved_fee_recipient = reserved;
      mayhem_mode_enabled = mayhem;
      reserved_fee_recipients = reserved_recipients;
      is_cashback_enabled = cashback;
      buyback_fee_recipients = buyback;
    })

  -- Older accounts end before the virtual quote reserve.
  pub decode_pool : List ℕ → Option (PoolAccount × ℤ)
  decode_pool bytes = elim (read_pool bytes) [
    | none ↦ none
    | some (pool, []) ↦ some (pool, pos 0)
    | some (pool, x ∷ rest) ↦ elim (b.read_i128 (x ∷ rest)) [
      | none ↦ none
      | some (virtual, rest') ↦ some (pool, virtual)
    ]
  ]

-- `u64::try_from` of an `i128` sum that was checked for overflow.
pub effective_quote_reserves : ℕ → ℤ → Result AnyError ℕ
effective_quote_reserves vault_balance (pos v) =
    if leb (2 ^ 127) (vault_balance + v)
    then err (other "pumpswap: effective quote reserves overflow")
    else if ltb (vault_balance + v) (2 ^ 64)
    then ok (vault_balance + v)
    else err (other "pumpswap: effective quote reserves outside u64 range")
effective_quote_reserves vault_balance (negsuc n) =
    if ltb n vault_balance
    then ok (vault_balance - suc n)
    else err (other "pumpswap: effective quote reserves outside u64 range")

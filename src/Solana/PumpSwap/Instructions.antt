-- ===== src/Solana/PumpSwap/Instructions.antt =====
-- Addresses and instructions of the PumpSwap program.
pub mod Layouts
use trading_aggregators.Prelude.{
  ℕ, Bool, true, false, not, String, List, [], ◌∷◌, ◌++◌, ◌==◌, if◌then◌else◌,
}
use trading_aggregators.Prelude.Bytes.{to_le_bytes, codes}
use trading_aggregators.Solana.Keys.{
  Pubkey, AccountMeta, Instruction, writable, readonly, default_key, system_program, ata_program,
  wsol, track_volume,
}
use trading_aggregators.Solana.Types.{Side, buy, sell, is_buy, Trade}
use trading_aggregators.Solana.Common.{
  Platform, key_bytes, pda, ata, anchor_discriminator, create_ata_idempotent, system_transfer,
  sync_native, close_account,
}
use trading_aggregators.Solana.PumpSwap.Quote.{FeeSettings, PoolState, protocol_recipient}

abbrev pub program_id : Pubkey
program_id = 0x0c14defc825ec67694250818bb654065f4298d3156d571b4d4f8090c18e9a863

abbrev pub fee_program_id : Pubkey
fee_program_id = 0x0c35ffa9055a8e568da8f7bc075615274cf1c92ca41f40009c516aa414c27c70

abbrev pub pumpfun_program_id : Pubkey
pumpfun_program_id = 0x0156e0f693665acf44db1568bf175baa5189cb97f5d2ff3b655d2bb6fd6d18b0

abbrev pub buy_ix_name : String
buy_ix_name = "buy_exact_quote_in"

abbrev pub sell_ix_name : String
sell_ix_name = "sell"

module _ ⦃p : Platform⦄ where
  -- The pool of index 0 that graduation creates.
  pub canonical_pool_pda : Pubkey → Pubkey
  canonical_pool_pda mint =
      let authority = pda (codes "pool-authority" ∷ key_bytes mint ∷ []) pumpfun_program_id in
      pda
        (codes "pool"
          ∷ to_le_bytes 2 0
          ∷ key_bytes authority
          ∷ key_bytes mint
          ∷ key_bytes wsol
          ∷ [])
        program_id

  pub global_config_pda : Pubkey
  global_config_pda = pda (codes "global_config" ∷ []) program_id

  pub event_authority_pda : Pubkey
  event_authority_pda = pda (codes "__event_authority" ∷ []) program_id

  pub coin_creator_vault_authority_pda : Pubkey → Pubkey
  coin_creator_vault_authority_pda creator =
      pda (codes "creator_vault" ∷ key_bytes creator ∷ []) program_id

  pub global_volume_pda : Pubkey
  global_volume_pda = pda (codes "global_volume_accumulator" ∷ []) program_id

  pub user_volume_pda : Pubkey → Pubkey
  user_volume_pda user = pda (codes "user_volume_accumulator" ∷ key_bytes user ∷ []) program_id

  pub fee_config_pda : Pubkey
  fee_config_pda = pda (codes "fee_config" ∷ key_bytes program_id ∷ []) fee_program_id

  pub pool_v2_pda : Pubkey → Pubkey
  pool_v2_pda base_mint = pda (codes "pool-v2" ∷ key_bytes base_mint ∷ []) program_id

  pub named_accounts : Trade → Pubkey → PoolState → FeeSettings → List AccountMeta
  named_accounts t pool_address pool fees =
      let authority = coin_creator_vault_authority_pda pool.coin_creator in
      let recipient = protocol_recipient fees pool.is_mayhem in
      writable pool_address false
      ∷ writable t.wallet true
      ∷ readonly global_config_pda false
      ∷ readonly pool.base_mint false
      ∷ readonly pool.quote_mint false
      ∷ writable (ata t.wallet pool.base_mint pool.base_token_program) false
      ∷ writable (ata t.wallet pool.quote_mint pool.quote_token_program) false
      ∷ writable pool.base_vault false
      ∷ writable pool.quote_vault false
      ∷ readonly recipient false
      ∷ writable (ata recipient pool.quote_mint pool.quote_token_program) false
      ∷ readonly pool.base_token_program false
      ∷ readonly pool.quote_token_program false
      ∷ readonly system_program false
      ∷ readonly ata_program false
      ∷ readonly event_authority_pda false
      ∷ readonly program_id false
      ∷ writable (ata authority pool.quote_mint pool.quote_token_program) false
      ∷ readonly authority false
      ∷ []

  pub remaining_accounts : Trade → PoolState → FeeSettings → Side → List AccountMeta
  remaining_accounts t pool fees side =
      let volume = user_volume_pda t.wallet in
      let cashback : List AccountMeta =
        if pool.is_cashback
        then writable (ata volume pool.quote_mint pool.quote_token_program) false
          ∷ (if is_buy side then [] else writable volume false ∷ [])
        else [] in
      let creator : List AccountMeta =
        if not (pool.coin_creator == default_key)
        then readonly (pool_v2_pda pool.base_mint) false ∷ []
        else [] in
      cashback
      ++ (creator
          ++ (readonly fees.buyback_recipient false
              ∷ writable (ata fees.buyback_recipient pool.quote_mint pool.quote_token_program) false
              ∷ []))

  pub swap_accounts : Trade → Pubkey → PoolState → FeeSettings → List AccountMeta
  swap_accounts t pool_address pool fees =
      named_accounts t pool_address pool fees
      ++ ((if is_buy t.side
            then readonly global_volume_pda false ∷ writable (user_volume_pda t.wallet) false ∷ []
            else [])
          ++ (readonly fee_config_pda false
              ∷ readonly fee_program_id false
              ∷ remaining_accounts t pool fees t.side))

  pub buy_instructions : Trade → Pubkey → PoolState → FeeSettings → ℕ → ℕ → List Instruction
  buy_instructions t pool_address pool fees quote_in min_base_out =
      let user_quote_ata = ata t.wallet pool.quote_mint pool.quote_token_program in
      create_ata_idempotent t.wallet t.wallet pool.base_mint pool.base_token_program
      ∷ create_ata_idempotent t.wallet t.wallet pool.quote_mint pool.quote_token_program
      ∷ system_transfer t.wallet user_quote_ata quote_in
      ∷ sync_native user_quote_ata
      ∷ record {
        program_id = program_id;
        accounts = swap_accounts t pool_address pool fees;
        bytes =
            anchor_discriminator buy_ix_name
            ++ (to_le_bytes 8 quote_in ++ (to_le_bytes 8 min_base_out ++ (track_volume ∷ [])));
      }
      ∷ close_account user_quote_ata t.wallet t.wallet
      ∷ []

  pub sell_instructions : Trade → Pubkey → PoolState → FeeSettings → ℕ → List Instruction
  sell_instructions t pool_address pool fees min_quote_out =
      let quote_ata = ata t.wallet wsol pool.quote_token_program in
      create_ata_idempotent t.wallet t.wallet pool.quote_mint pool.quote_token_program
      ∷ record {
        program_id = program_id;
        accounts = swap_accounts t pool_address pool fees;
        bytes =
            anchor_discriminator sell_ix_name
            ++ (to_le_bytes 8 t.amount ++ to_le_bytes 8 min_quote_out);
      }
      ∷ close_account quote_ata t.wallet t.wallet
      ∷ []

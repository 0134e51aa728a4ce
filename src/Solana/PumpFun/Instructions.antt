-- ===== src/Solana/PumpFun/Instructions.antt =====
-- Addresses and instructions of the Pump.fun program.
pub mod Layouts
use trading_aggregators.Prelude.{
  ℕ, ◌≡◌, Bool, true, false, String, List, [], ◌∷◌, ◌++◌, if◌then◌else◌,
}
use trading_aggregators.Prelude.Bytes.{to_le_bytes, codes}
use trading_aggregators.Solana.Keys.{
  Pubkey, AccountMeta, Instruction, writable, readonly, system_program, track_volume,
}
use trading_aggregators.Solana.Types.{Trade}
use trading_aggregators.Solana.Common.{Platform, key_bytes, pda, ata, anchor_discriminator}
use trading_aggregators.Solana.PumpFun.Quote.{FeeSettings, Curve, recipient}

abbrev pub program_id : Pubkey
program_id = 0x0156e0f693665acf44db1568bf175baa5189cb97f5d2ff3b655d2bb6fd6d18b0

abbrev pub fee_program_id : Pubkey
fee_program_id = 0x0c35ffa9055a8e568da8f7bc075615274cf1c92ca41f40009c516aa414c27c70

abbrev pub buy_ix_name : String
buy_ix_name = "buy_exact_sol_in"

abbrev pub sell_ix_name : String
sell_ix_name = "sell"

module _ ⦃p : Platform⦄ where
  pub bonding_curve_pda : Pubkey → Pubkey
  bonding_curve_pda mint = pda (codes "bonding-curve" ∷ key_bytes mint ∷ []) program_id

  pub global_pda : Pubkey
  global_pda = pda (codes "global" ∷ []) program_id

  pub event_authority_pda : Pubkey
  event_authority_pda = pda (codes "__event_authority" ∷ []) program_id

  pub creator_vault_pda : Pubkey → Pubkey
  creator_vault_pda creator = pda (codes "creator-vault" ∷ key_bytes creator ∷ []) program_id

  pub global_volume_pda : Pubkey
  global_volume_pda = pda (codes "global_volume_accumulator" ∷ []) program_id

  pub user_volume_pda : Pubkey → Pubkey
  user_volume_pda user = pda (codes "user_volume_accumulator" ∷ key_bytes user ∷ []) program_id

  pub fee_config_pda : Pubkey
  fee_config_pda = pda (codes "fee_config" ∷ key_bytes program_id ∷ []) fee_program_id

  pub bonding_curve_v2_pda : Pubkey → Pubkey
  bonding_curve_v2_pda mint = pda (codes "bonding-curve-v2" ∷ key_bytes mint ∷ []) program_id

  pub buy_ix : Trade → Pubkey → Curve → FeeSettings → ℕ → ℕ → Instruction
  buy_ix t pool curve fees spendable_sol min_tokens = record {
    program_id = program_id;
    accounts =
        readonly global_pda false
        ∷ writable (recipient fees curve.is_mayhem) false
        ∷ readonly t.mint false
        ∷ writable pool false
        ∷ writable (ata pool t.mint curve.token_program) false
        ∷ writable (ata t.wallet t.mint curve.token_program) false
        ∷ writable t.wallet true
        ∷ readonly system_program false
        ∷ readonly curve.token_program false
        ∷ writable (creator_vault_pda curve.creator) false
        ∷ readonly event_authority_pda false
        ∷ readonly program_id false
        ∷ readonly global_volume_pda false
        ∷ writable (user_volume_pda t.wallet) false
        ∷ readonly fee_config_pda false
        ∷ readonly fee_program_id false
        ∷ readonly (bonding_curve_v2_pda t.mint) false
        ∷ writable fees.buyback_recipient false
        ∷ [];
    bytes =
        anchor_discriminator buy_ix_name
        ++ (to_le_bytes 8 spendable_sol ++ (to_le_bytes 8 min_tokens ++ (track_volume ∷ [])));
  }

  pub sell_ix : Trade → Pubkey → Curve → FeeSettings → ℕ → ℕ → Instruction
  sell_ix t pool curve fees base_in min_sol =
      let named : List AccountMeta =
        readonly global_pda false
        ∷ writable (recipient fees curve.is_mayhem) false
        ∷ readonly t.mint false
        ∷ writable pool false
        ∷ writable (ata pool t.mint curve.token_program) false
        ∷ writable (ata t.wallet t.mint curve.token_program) false
        ∷ writable t.wallet true
        ∷ readonly system_program false
        ∷ writable (creator_vault_pda curve.creator) false
        ∷ readonly curve.token_program false
        ∷ readonly event_authority_pda false
        ∷ readonly program_id false
        ∷ readonly fee_config_pda false
        ∷ readonly fee_program_id false
        ∷ [] in
      let cashback : List AccountMeta =
        if curve.is_cashback then writable (user_volume_pda t.wallet) false ∷ [] else [] in
      record {
        program_id = program_id;
        accounts =
            named
            ++ (cashback
                ++ (readonly (bonding_curve_v2_pda t.mint) false
                    ∷ writable fees.buyback_recipient false
                    ∷ []));
        bytes =
            anchor_discriminator sell_ix_name ++ (to_le_bytes 8 base_in ++ to_le_bytes 8 min_sol);
      }

-- ===== src/Solana/Common.antt =====
-- `src/solana/dexes/common.rs`: instruction builders and the arithmetic of constant-product pools.
-- The program-address search, SHA-256 and the token crate's transfer builder are parameters.
mod Tests
pub mod Bounds
use trading_aggregators.Prelude.{
  ℕ, ◌+◌, ◌/◌, ◌%◌, ◌^◌, Bool, true, false, ◌||◌, String, List, [], ◌∷◌, ◌++◌, ◌==◌, if◌then◌else◌,
  take,
}
use trading_aggregators.Prelude.Words.{as_u64, add_u64, sub_u64, add_u128, mul_u128, div_ceil}
use trading_aggregators.Prelude.Bytes.{to_le_bytes, to_be_bytes, codes}
use trading_aggregators.Error.{Result}
use trading_aggregators.Solana.Keys.{
  Pubkey, AccountMeta, Instruction, writable, readonly, system_program, token_program, ata_program,
  compute_budget_program, ix_close_account, ix_sync_native, sys_transfer, tag_compute_unit_limit,
  tag_compute_unit_price, ata_create_idempotent,
}

-- What the code takes from other crates: `Pubkey::find_program_address`, SHA-256, and
-- `spl_token::instruction::transfer_checked` at its program, source, mint, destination, authority,
-- further signers, amount and decimals; `none` is that builder's error.
pub record Platform : Type 0 where
  pub find_program_address : List (List ℕ) → Pubkey → Pubkey
  pub sha256 : List ℕ → List ℕ
  pub transfer_checked :
      Pubkey → Pubkey → Pubkey → Pubkey → Pubkey → List Pubkey → ℕ → ℕ → Result String Instruction

-- `Pubkey::as_ref`
abbrev pub key_bytes : Pubkey → List ℕ
key_bytes = to_be_bytes 32

module _ ⦃p : Platform⦄ where
  pub pda : List (List ℕ) → Pubkey → Pubkey
  pda seeds program = p.find_program_address seeds program

  pub ata : Pubkey → Pubkey → Pubkey → Pubkey
  ata wallet mint program =
      pda (key_bytes wallet ∷ key_bytes program ∷ key_bytes mint ∷ []) ata_program

  pub create_ata_idempotent : Pubkey → Pubkey → Pubkey → Pubkey → Instruction
  create_ata_idempotent payer wallet mint program = record {
    program_id = ata_program;
    accounts =
        writable payer true
        ∷ writable (ata wallet mint program) false
        ∷ readonly wallet false
        ∷ readonly mint false
        ∷ readonly system_program false
        ∷ readonly program false
        ∷ [];
    bytes = ata_create_idempotent ∷ [];
  }

  pub anchor_discriminator : String → List ℕ
  anchor_discriminator ix_name = take 8 (p.sha256 (codes "global:" ++ codes ix_name))

pub system_transfer : Pubkey → Pubkey → ℕ → Instruction
system_transfer from to lamports = record {
  program_id = system_program;
  accounts = writable from true ∷ writable to false ∷ [];
  bytes = to_le_bytes 4 sys_transfer ++ to_le_bytes 8 lamports;
}

pub tip : Pubkey → Pubkey → ℕ → Instruction
tip payer tip_account lamports = system_transfer payer tip_account lamports

pub sync_native : Pubkey → Instruction
sync_native account = record {
  program_id = token_program;
  accounts = writable account false ∷ [];
  bytes = ix_sync_native ∷ [];
}

pub close_account : Pubkey → Pubkey → Pubkey → Instruction
close_account account destination owner = record {
  program_id = token_program;
  accounts = writable account false ∷ writable destination false ∷ readonly owner true ∷ [];
  bytes = ix_close_account ∷ [];
}

unfoldable pub set_compute_unit_limit : ℕ → Instruction
set_compute_unit_limit units = record {
  program_id = compute_budget_program;
  accounts = [];
  bytes = tag_compute_unit_limit ∷ to_le_bytes 4 units;
}

pub set_compute_unit_price : ℕ → Instruction
set_compute_unit_price micro_lamports = record {
  program_id = compute_budget_program;
  accounts = [];
  bytes = tag_compute_unit_price ∷ to_le_bytes 8 micro_lamports;
}

pub base_out_for_quote_in : ℕ → ℕ → ℕ → ℕ
base_out_for_quote_in quote_reserve base_reserve quote_in =
    if quote_in == 0 || quote_reserve == 0 || base_reserve == 0
    then 0
    else as_u64 (mul_u128 base_reserve quote_in / add_u128 quote_reserve quote_in)

pub quote_out_for_base_in : ℕ → ℕ → ℕ → ℕ
quote_out_for_base_in quote_reserve base_reserve base_in =
    if base_in == 0 || quote_reserve == 0 || base_reserve == 0
    then 0
    else as_u64 (mul_u128 quote_reserve base_in / add_u128 base_reserve base_in)

pub fee_floor : ℕ → ℕ → ℕ
fee_floor amount bps = as_u64 (mul_u128 amount bps / 10_000)

pub fee_ceil : ℕ → ℕ → ℕ
fee_ceil amount bps = as_u64 (div_ceil (mul_u128 amount bps) 10_000)

pub slippage_up : ℕ → ℕ → ℕ
slippage_up x bps = add_u64 x (as_u64 (mul_u128 x bps / 10_000))

pub slippage_down : ℕ → ℕ → ℕ
slippage_down x bps = sub_u64 x (as_u64 (mul_u128 x bps / 10_000))

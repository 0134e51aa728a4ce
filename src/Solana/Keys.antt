-- ===== src/Solana/Keys.antt =====
-- Addresses, account metas and instructions as the Solana crates define them, and the constants of
-- `src/solana/dexes/common.rs`. An address is the number that its 32 bytes spell, most significant
-- byte first, so `Pubkey::default()` is 0.
use trading_aggregators.Prelude.{ℕ, Bool, List, true, false}

abbrev pub Pubkey : Type 0
Pubkey = ℕ

pub record AccountMeta : Type 0 where
  pub pubkey : Pubkey
  pub is_signer : Bool
  pub is_writable : Bool

pub record Instruction : Type 0 where
  pub program_id : Pubkey
  pub accounts : List AccountMeta
  pub bytes : List ℕ

-- `AccountMeta::new` and `AccountMeta::new_readonly`.
abbrev pub writable : Pubkey → Bool → AccountMeta
writable key signer = record { pubkey = key; is_signer = signer; is_writable = true }

abbrev pub readonly : Pubkey → Bool → AccountMeta
readonly key signer = record { pubkey = key; is_signer = signer; is_writable = false }

abbrev pub default_key : Pubkey
default_key = 0

abbrev pub system_program : Pubkey
system_program = 0

abbrev pub token_program : Pubkey
token_program = 0x06ddf6e1d765a193d9cbe146ceeb79ac1cb485ed5f5b37913a8cf5857eff00a9

abbrev pub token_2022_program : Pubkey
token_2022_program = 0x06ddf6e1ee758fde18425dbce46ccddab61afc4d83b90d27febdf928d8a18bfc

abbrev pub ata_program : Pubkey
ata_program = 0x8c97258f4e2489f1bb3d1029148e0d830b5a1399daff1084048e7bd8dbe9f859

abbrev pub compute_budget_program : Pubkey
compute_budget_program = 0x0306466fe5211732ffecadba72c39be7bc8ce5bbc5f7126b2c439b3a40000000

abbrev pub wsol : Pubkey
wsol = 0x069b8857feab8184fb687f634618c035dac439dc1aeb3b5598a0f00000000001

-- `USDC_MINT` of `src/solana/dexes/pumpswap/mod.rs`.
abbrev pub usdc_mint : Pubkey
usdc_mint = 0xc6fa7af3bedbad3a3d65f36aabc97431b1bbe4c2d2f6e0e47ca60203452f5d61

abbrev pub ix_close_account : ℕ
ix_close_account = 9

abbrev pub ix_sync_native : ℕ
ix_sync_native = 17

abbrev pub sys_transfer : ℕ
sys_transfer = 2

abbrev pub request_heap_frame : ℕ
request_heap_frame = 1

abbrev pub tag_compute_unit_limit : ℕ
tag_compute_unit_limit = 2

abbrev pub tag_compute_unit_price : ℕ
tag_compute_unit_price = 3

abbrev pub tag_loaded_accounts_data_size_limit : ℕ
tag_loaded_accounts_data_size_limit = 4

abbrev pub ata_create : ℕ
ata_create = 0

abbrev pub ata_create_idempotent : ℕ
ata_create_idempotent = 1

abbrev pub track_volume : ℕ
track_volume = 1

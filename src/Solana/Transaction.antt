-- ===== src/Solana/Transaction.antt =====
-- Transactions as the Solana crates define them: compiled messages, signatures, and what simulating
-- one reports. Compilation itself is a parameter of the executor.
use trading_aggregators.Prelude.{ℕ, Bool, true, false, Option, List}
use trading_aggregators.Solana.Keys.{Pubkey}

pub data MessageVersion : Type 0 where
  legacy v0 v1 : MessageVersion

abbrev pub is_legacy : MessageVersion → Bool
is_legacy legacy = true
is_legacy v0 = false
is_legacy v1 = false

pub record CompiledInstruction : Type 0 where
  pub program_id_index : ℕ
  pub accounts : List ℕ
  pub bytes : List ℕ

pub record Message : Type 0 where
  pub version : MessageVersion
  pub num_required_signatures : ℕ
  pub static_account_keys : List Pubkey
  pub instructions : List CompiledInstruction
  pub recent_blockhash : ℕ

pub record Transaction : Type 0 where
  pub signatures : List ℕ
  pub message : Message

abbrev pub with_instructions : Transaction → List CompiledInstruction → Transaction
with_instructions tx instructions = record tx {
  message = record (tx.message) { instructions = instructions };
}

-- What a simulation reports.
pub record Simulation : Type 0 where
  pub failure : Bool
  pub units_consumed : Option ℕ
  pub fee : Option ℕ
  pub pre_balances : Option (List ℕ)
  pub post_balances : Option (List ℕ)

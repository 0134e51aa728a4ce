-- ===== src/Solana/Samples.antt =====
-- Concrete stand-ins for what the development takes as a parameter, at which the tests evaluate it.
-- The world is a clock in milliseconds.
use trading_aggregators.Prelude.{
  ℕ, ◌+◌, ◌*◌, ◌/◌, ltb, leb, ◌==◌, true, false, Option, none, some, List, [], ◌∷◌, ◌++◌,
  if◌then◌else◌, arith,
}
use trading_aggregators.Prelude.Bytes.{to_le_bytes}
use trading_aggregators.Error.{ok}
use trading_aggregators.Floats.{Floats}
use trading_aggregators.Solana.Keys.{Pubkey, Instruction, writable, readonly}
use trading_aggregators.Prelude.Int.{pos}
use trading_aggregators.Solana.Node.{AccountReads, Borsh}
use trading_aggregators.Solana.LookupTables.{TableProgram, TableReads}
use trading_aggregators.Solana.Common.{Platform}
use trading_aggregators.Solana.Transaction.{
  Message, MessageVersion, Simulation, CompiledInstruction,
}
use trading_aggregators.Solana.Executor.Budget.{V1Config}
use trading_aggregators.Solana.Chain.{Chain, Compiler, Submitter, IsClock}

-- Whole numbers in place of floating-point ones.
instance abbrev pub sample_floats : Floats
sample_floats = record {
  of_u64 = λ n. n;
  to_u32 = λ x. x;
  mul = λ x y. x + x / 5;
  div = λ x y. x / y;
  sub = λ x y. x;
  is_finite = λ x. true;
  lt = ltb;
  le = leb;
}

-- The token program's checked transfer.
abbrev pub checked_transfer : Pubkey → Pubkey → Pubkey → Pubkey → Pubkey → ℕ → ℕ → Instruction
checked_transfer program source mint destination authority amount decimals = record {
  program_id = program;
  accounts =
      writable source false
      ∷ readonly mint false
      ∷ writable destination false
      ∷ readonly authority true
      ∷ [];
  bytes = 12 ∷ (to_le_bytes 8 amount ++ (decimals ∷ []));
}

-- One address for each program.
instance abbrev pub sample_platform : Platform
sample_platform = record {
  find_program_address = λ seeds program. program + 1;
  sha256 = λ bytes. bytes;
  transfer_checked = λ program source mint destination authority signers amount decimals.
      ok (checked_transfer program source mint destination authority amount decimals);
}

abbrev pub sample_simulation : Simulation
sample_simulation = record {
  failure = false;
  units_consumed = some 100_000;
  fee = some 5_000;
  pre_balances = some (10_000_000 ∷ []);
  post_balances = some (9_995_000 ∷ []);
}

-- A node on which every transaction stays pending, and whose simulations agree.
instance abbrev pub sample_chain : Chain ℕ
sample_chain = record {
  get_latest_blockhash = λ w. (ok 77, w);
  simulate_transaction = λ tx replace w. (ok sample_simulation, w);
  get_signature_status = λ sig w. (ok none, w + 20);
  get_balance = λ key w. (ok 1_000, w);
  now = λ w. w;
  system_time = λ w. w * 1_000_000;
  sleep = λ d w. w + d;
}

pub sample_chain-IsClock : IsClock sample_chain
sample_chain-IsClock = record {
  status_keeps = λ sig w. omega arith;
  sleep_takes = λ d w. omega arith;
}

abbrev pub one_instruction : List CompiledInstruction
one_instruction = record { program_id_index = 2; accounts = []; bytes = 1 ∷ [] } ∷ []

-- Every route compiles to one instruction that the payer and, if it differs, wallet 11 sign.
abbrev pub sample_message : MessageVersion → Pubkey → ℕ → Message
sample_message version payer hash = record {
  version = version;
  num_required_signatures = if payer == 11 then 1 else 2;
  static_account_keys = payer ∷ 11 ∷ 12 ∷ [];
  instructions = one_instruction;
  recent_blockhash = hash;
}

instance abbrev pub sample_compiler : Compiler V1Config
sample_compiler = record {
  try_compile_v0 =
      λ payer instructions tables hash. ok (sample_message MessageVersion.v0 payer hash);
  try_compile_v1 =
      λ payer instructions hash config. ok (sample_message MessageVersion.v1 payer hash);
  validate_v1 = λ message. ok tt;
  serialized_size = λ tx. ok 400;
  max_v1_transaction_size = 4_096;
}

abbrev pub sample_submitter : Submitter ℕ
sample_submitter = record {
  default_tip = some (record { account = 500; lamports = 1_000 });
  submit = λ tx w. (ok 99, w);
}

-- Accounts that hold nothing, owned by program 9.
instance abbrev pub sample_reads : AccountReads ℕ
sample_reads = record {
  get_account = λ key w. (ok (record { owner = 9; bytes = [] }), w);
  get_account_with_commitment = λ key w. (ok none, w);
  get_multiple_accounts = λ keys w. (ok [], w);
  get_token_account_balance = λ key w. (ok "0", w);
  parse_u64 = λ text. some 0;
}

abbrev pub one_byte : List ℕ → Option (ℕ × List ℕ)
one_byte [] = none
one_byte (b ∷ bs) = some (b, bs)

-- One byte for every number.
instance abbrev pub sample_borsh : Borsh
sample_borsh = record {
  read_u8 = one_byte;
  read_u16 = one_byte;
  read_u64 = one_byte;
  read_bool = λ bs. some (false, bs);
  read_key = one_byte;
  read_i128 = λ bs. some (pos 0, bs);
}

-- A table of two addresses under every key, long since extended.
instance abbrev pub sample_program : TableProgram
sample_program = record {
  check_id = λ key. true;
  deserialize = λ bytes. some (record {
    deactivation_slot = 0xffff_ffff_ffff_ffff;
    last_extended_slot = 5;
    addresses = 1 ∷ 2 ∷ [];
  });
}

instance abbrev pub sample_tables : TableReads ℕ
sample_tables = record {
  get_account_at_slot = λ key w. (ok (some (record { owner = 9; bytes = [] }), 6), w);
}

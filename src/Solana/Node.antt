-- ===== src/Solana/Node.antt =====
-- The Solana node as the code uses it: what an account read returns, and Borsh's primitive readers,
-- from which the derived layouts of the account structs are built field by field.
use trading_aggregators.Prelude.{
  ℕ, zero, suc, ◌^◌, ◌<◌, String, Bool, true, false, ◌≡◌, Option, none, some, List, [], ◌∷◌, ◌++◌,
  replicate,
}
use trading_aggregators.Prelude.Bytes.{to_le_bytes}
use trading_aggregators.Prelude.Int.{ℤ}
use trading_aggregators.Action.{Action}
use trading_aggregators.Solana.Keys.{Pubkey}

-- `Account`, cut to the fields that are read.
pub record Account : Type 0 where
  pub owner : Pubkey
  pub bytes : List ℕ

-- `RpcClient`: each read goes to the node, whose answers depend on the world. Its errors are texts.
pub record AccountReads (W : Type 0) : Type 0 where
  pub get_account : Pubkey → Action W String Account
  pub get_account_with_commitment : Pubkey → Action W String (Option Account)
  pub get_multiple_accounts : List Pubkey → Action W String (List (Option Account))
  -- `get_token_account_balance(..).amount`, a decimal text, and its `parse::<u64>`.
  pub get_token_account_balance : Pubkey → Action W String String
  pub parse_u64 : String → Option ℕ

-- A reader consumes the front of the data; `none` is its error.
abbrev pub Reader : Type 0 → Type 0
Reader A = List ℕ → Option (A × List ℕ)

infixl 5 ◌>>=◌
abbrev pub ◌>>=◌ : {A B : Type 0} → Reader A → (A → Reader B) → Reader B
◌>>=◌ m f bs = elim (m bs) [ none ↦ none | some (a, rest) ↦ f a rest ]

abbrev pub done : {A : Type 0} → A → Reader A
done a bs = some (a, bs)

-- Borsh's readers for the field types of this code.
pub record Borsh : Type 0 where
  pub read_u8 : Reader ℕ
  pub read_u16 : Reader ℕ
  pub read_u64 : Reader ℕ
  pub read_bool : Reader Bool
  pub read_key : Reader Pubkey
  pub read_i128 : Reader ℤ

-- `decode_account`: the bytes behind the struct are ignored.
abbrev pub decode_account : {A : Type 0} → Reader A → List ℕ → Option A
decode_account r bytes = elim (r bytes) [ none ↦ none | some (a, rest) ↦ some a ]

-- `[Pubkey; n]`
pub read_keys : ⦃b : Borsh⦄ → ℕ → Reader (List Pubkey)
read_keys zero = done []
read_keys ⦃b⦄ (suc n) = do k ← b.read_key; ks ← read_keys n; done (k ∷ ks)

-- Borsh's format: integers are little-endian, a Boolean is one byte, a key is its 32 bytes.
pub record IsBorsh (b : Borsh) : Type 0 where
  pub u64_bytes :
      (x : ℕ) (rest : List ℕ) → x < 2 ^ 64 → b.read_u64 (to_le_bytes 8 x ++ rest) ≡ some (x, rest)
  pub false_byte : (rest : List ℕ) → b.read_bool (0 ∷ rest) ≡ some (false, rest)
  pub true_byte : (rest : List ℕ) → b.read_bool (1 ∷ rest) ≡ some (true, rest)
  pub zero_key : (rest : List ℕ) → b.read_key (replicate 32 0 ++ rest) ≡ some (0, rest)

-- ===== src/Solana/Sources/Rent.antt =====
-- `move_rent_to_sponsor` of `src/solana/sources/mod.rs`: a sponsored route's account rent.
use trading_aggregators.Prelude.{
  ℕ, String, Bool, true, false, not, ◌&&◌, ◌||◌, Option, none, some, List, [], ◌∷◌, ◌==◌,
  if◌then◌else◌, length, get_elem?, set,
}
use trading_aggregators.Prelude.Bytes.{bytes_eq}
use trading_aggregators.Error.{TradeError, decode, Result, ok, err, raise_if, ◌>>=◌, ◌>>◌}
use trading_aggregators.Solana.Keys.{
  Pubkey, AccountMeta, Instruction, default_key, writable, system_program, ata_program, ata_create,
  ata_create_idempotent,
}
use trading_aggregators.Solana.Common.{Platform, ata, system_transfer}

-- The places of `ata_account`.
abbrev pub payer_place : ℕ
payer_place = 0

abbrev pub address_place : ℕ
address_place = 1

abbrev pub owner_place : ℕ
owner_place = 2

abbrev pub mint_place : ℕ
mint_place = 3

abbrev pub system_program_place : ℕ
system_program_place = 4

abbrev pub token_program_place : ℕ
token_program_place = 5

abbrev pub account_count : ℕ
account_count = 6

key_of : Option AccountMeta → Pubkey
key_of none = default_key
key_of (some account) = account.pubkey

-- `accounts[place].pubkey`, which is read behind a test of the length.
unfoldable pub key_at : List AccountMeta → ℕ → Pubkey
unfolding key_of
key_at accounts place = key_of (get_elem? accounts place)

abbrev creates_account : List ℕ → Bool
creates_account bytes =
    bytes_eq bytes []
    || (bytes_eq bytes (ata_create ∷ []) || bytes_eq bytes (ata_create_idempotent ∷ []))

module _ ⦃p : Platform⦄ where
  -- The setup that a sponsor pays for: an associated token account at its own address.
  unfoldable pub is_token_setup : Instruction → Pubkey → Pubkey → Bool
  is_token_setup ix wallet sponsor =
      creates_account ix.bytes
      && (length ix.accounts == account_count
          && ((key_at ix.accounts payer_place == wallet
                || key_at ix.accounts payer_place == sponsor)
              && (key_at ix.accounts system_program_place == system_program
                  && key_at ix.accounts address_place
                    == ata (key_at ix.accounts owner_place) (key_at ix.accounts mint_place)
                        (key_at ix.accounts token_program_place))))

  unfoldable pub with_rent_payer :
      String → Instruction → Pubkey → Pubkey → Result TradeError Instruction
  with_rent_payer venue ix wallet sponsor =
      if ix.program_id == ata_program
      then (if is_token_setup ix wallet sponsor
          then ok (record ix { accounts = set ix.accounts payer_place (writable sponsor true) })
          else err (decode venue "unsupported sponsored token-account setup"))
      else ok ix

  abbrev first_is : List AccountMeta → Pubkey → Bool
  first_is [] key = false
  first_is (account ∷ accounts) key = account.pubkey == key

  unfoldable pub spends_user_sol : Instruction → Pubkey → Pubkey → Bool
  spends_user_sol ix wallet sponsor =
      ix.program_id == system_program
      && (first_is ix.accounts wallet
          && not (bytes_eq ix.bytes (system_transfer wallet sponsor 0).bytes))

  -- The instruction as it stands afterwards.
  unfoldable pub move_rent_to_sponsor :
      String → Instruction → Pubkey → Pubkey → Result TradeError Instruction
  move_rent_to_sponsor venue ix wallet sponsor = do
    moved ← with_rent_payer venue ix wallet sponsor
    raise_if (spends_user_sol moved wallet sponsor)
        (decode venue "sponsored route still requires user SOL")
    ok moved

-- ===== src/Solana/LookupTables.antt =====
-- `src/solana/lookup_table.rs`: loading address lookup tables and joining lists of them.
mod Tests
pub mod Merging
pub mod Shared
use trading_aggregators.Prelude.{
  ℕ, ◌^◌, ◌-◌, Bool, true, false, not, ◌||◌, Option, none, some, List, [], ◌∷◌, ◌++◌, ◌==◌, leb,
  any,
}
use trading_aggregators.Error.{
  TradeError, rpc, decode, Result, ok, err, ok_or, raise_if, ◌>>=◌ as ◌>>=ᵣ◌, ◌>>◌ as ◌>>ᵣ◌,
}
use trading_aggregators.Action.{Action, lift, pure, map_err, ◌>>=◌}
use trading_aggregators.Solana.Keys.{Pubkey}
use trading_aggregators.Solana.Types.{LookupTable}
use trading_aggregators.Solana.Node.{Account}

-- `AddressLookupTable` and its program, which other crates define.
pub record TableState : Type 0 where
  pub deactivation_slot : ℕ
  pub last_extended_slot : ℕ
  pub addresses : List Pubkey

pub record TableProgram : Type 0 where
  pub check_id : Pubkey → Bool
  pub deserialize : List ℕ → Option TableState

-- `get_account_with_commitment`, with the slot of its context.
pub record TableReads (W : Type 0) : Type 0 where
  pub get_account_at_slot : Pubkey → Action W ℕ (Option Account × ℕ)

-- `HashSet::insert` on the keys that were seen, as a list.
abbrev pub seen_before : List Pubkey → Pubkey → Bool
seen_before seen key = any (λ k. k == key) seen

-- `filter(|x| seen.insert(key(x)))`: the first item of each key, in order.
pub first_by {ℓ} : {A : Type ℓ} → (A → Pubkey) → List Pubkey → List A → List A
first_by key seen [] = []
first_by key seen (x ∷ xs) = elim (seen_before seen (key x)) [
  | true ↦ first_by key seen xs
  | false ↦ x ∷ first_by key (key x ∷ seen) xs
]

pub merge_lookup_tables : List LookupTable → List LookupTable → List LookupTable
merge_lookup_tables primary supplemental =
    first_by (λ (t : LookupTable). t.key) [] (primary ++ supplemental)

pub decode_lookup_table :
    ⦃program : TableProgram⦄ → Pubkey → Pubkey → List ℕ → ℕ → Result TradeError LookupTable
decode_lookup_table ⦃program⦄ address owner bytes slot =
    raise_if (not (program.check_id owner)) (decode "address lookup table" "account has owner")
    >>ᵣ (ok_or (program.deserialize bytes) (decode "address lookup table" "account") >>=ᵣ λ table.
        raise_if (not (table.deactivation_slot == 2 ^ 64 - 1) || leb slot table.last_extended_slot)
          (decode "address lookup table"
            "account is deactivating or not warmed up; use an active table and retry after its extension slot")
        >>ᵣ ok (record { key = address; addresses = table.addresses }))

module _ {W : Type 0} ⦃program : TableProgram⦄ ⦃reads : TableReads W⦄ where
  pub load_address_lookup_table : Pubkey → Action W TradeError LookupTable
  load_address_lookup_table address = do
    response ← map_err (λ _. rpc "get address lookup table") (reads.get_account_at_slot address)
    account ← lift (
        ok_or response.0
          (decode "address lookup table" "account does not exist on this RPC cluster"))
    lift (decode_lookup_table address account.owner account.bytes response.1)

  -- The loop of `load_address_lookup_tables`.
  load_from : List Pubkey → List Pubkey → Action W TradeError (List LookupTable)
  load_from seen [] = pure []
  load_from seen (address ∷ addresses) = elim (seen_before seen address) [
    | true ↦ load_from seen addresses
    | false ↦ do
      table ← load_address_lookup_table address
      tables ← load_from (address ∷ seen) addresses
      pure (table ∷ tables)
  ]

  pub load_address_lookup_tables : List Pubkey → Action W TradeError (List LookupTable)
  unfolding load_from
  load_address_lookup_tables = load_from []

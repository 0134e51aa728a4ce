-- ===== src/Solana/LookupTables/Tests.antt =====
-- Joining and loading tables.
use trading_aggregators.Prelude.{ℕ, ◌≡◌, refl, List, [], ◌∷◌, map, or_else}
use trading_aggregators.Solana.Keys.{Pubkey}
use trading_aggregators.Solana.Types.{LookupTable}
use trading_aggregators.Solana.Samples.{sample_program, sample_tables}
use trading_aggregators.Solana.LookupTables.{
  first_by, merge_lookup_tables, decode_lookup_table, load_address_lookup_table, load_from,
  load_address_lookup_tables,
}
use trading_aggregators.Solana.LookupTables.Merging.{
  IsDistinct, find_table, merge_lookup_tables_first, load_address_lookup_tables-keys,
}

abbrev table_of : Pubkey → LookupTable
table_of key = record { key = key; addresses = 1 ∷ 2 ∷ [] }

abbrev own_tables : List LookupTable
own_tables = table_of 3 ∷ table_of 4 ∷ []

abbrev shared_tables : List LookupTable
shared_tables = table_of 4 ∷ table_of 5 ∷ []

merge_lookup_tables_first_example :
    IsDistinct (map (λ (t : LookupTable). t.key) (merge_lookup_tables own_tables shared_tables))
    × ((k : Pubkey)
        → find_table k (merge_lookup_tables own_tables shared_tables)
          ≡ or_else (find_table k own_tables) (find_table k shared_tables))
merge_lookup_tables_first_example = merge_lookup_tables_first own_tables shared_tables

load_address_lookup_tables-keys_example :
    (map (λ (t : LookupTable). t.key) own_tables ≡ first_by (λ k. k) [] (3 ∷ 4 ∷ 3 ∷ []))
    × IsDistinct (map (λ (t : LookupTable). t.key) own_tables)
unfolding load_address_lookup_tables load_from load_address_lookup_table decode_lookup_table
load_address_lookup_tables-keys_example =
    load_address_lookup_tables-keys {W = ℕ} (3 ∷ 4 ∷ 3 ∷ []) 0 0 {tables = own_tables} refl

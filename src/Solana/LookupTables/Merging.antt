-- ===== src/Solana/LookupTables/Merging.antt =====
-- Joined lists of lookup tables hold each table once, and the first list wins.
use trading_aggregators.Prelude.{
  ◌≡◌, refl, sym, ap, subst, ◌∙◌, true, false, Option, none, some, List, [], ◌∷◌, ◌++◌, map, ◌==◌,
  if◌then◌else◌, or_else, arith,
}
use trading_aggregators.Error.{TradeError, Result, ok, err}
use trading_aggregators.Solana.Keys.{Pubkey}
use trading_aggregators.Solana.Types.{LookupTable}
use trading_aggregators.Solana.LookupTables.{
  TableProgram, TableReads, decode_lookup_table, seen_before, first_by, merge_lookup_tables,
  load_from, load_address_lookup_table, load_address_lookup_tables,
}

-- No key occurs twice.
abbrev pub IsDistinct : List Pubkey → Type 0
IsDistinct [] = Unit
IsDistinct (k ∷ ks) = (seen_before ks k ≡ false) × IsDistinct ks

-- The first table with a key.
abbrev pub find_table : Pubkey → List LookupTable → Option LookupTable
find_table k [] = none
find_table k (t ∷ ts) = if t.key == k then some t else find_table k ts

module _ {ℓ} {A : Type ℓ} (key : A → Pubkey) where
  -- What was seen before does not come again.
  first_by_fresh :
      (seen : List Pubkey) (k : Pubkey) (xs : List A)
      → seen_before seen k ≡ true
      → seen_before (map key (first_by key seen xs)) k ≡ false
  unfolding first_by
  first_by_fresh seen k [] h = refl
  first_by_fresh seen k (x ∷ xs) h =
      ground (arith, first_by_fresh seen k xs h, first_by_fresh (key x ∷ seen) k xs)

  pub first_by-IsDistinct :
      (seen : List Pubkey) (xs : List A) → IsDistinct (map key (first_by key seen xs))
  unfolding first_by
  first_by-IsDistinct seen [] = tt
  first_by-IsDistinct seen (x ∷ xs) = ground (
    arith,
    first_by-IsDistinct seen xs,
    first_by-IsDistinct (key x ∷ seen) xs,
    first_by_fresh (key x ∷ seen) (key x) xs,
  )

pub map_id : (ks : List Pubkey) → ks ≡ map (λ k. k) ks
map_id [] = refl
map_id (k ∷ ks) = ap (λ (r : List Pubkey). k ∷ r) (map_id ks)

find_table-first_by :
    (k : Pubkey) (seen : List Pubkey) (ts : List LookupTable)
    → find_table k (first_by (λ (t : LookupTable). t.key) seen ts)
      ≡ (if seen_before seen k then none else find_table k ts)
unfolding first_by
find_table-first_by k seen [] = ground arith
find_table-first_by k seen (t ∷ ts) =
    ground (arith, find_table-first_by k seen ts, find_table-first_by k (t.key ∷ seen) ts)

find_table-append :
    (k : Pubkey) (xs ys : List LookupTable)
    → find_table k (xs ++ ys) ≡ or_else (find_table k xs) (find_table k ys)
find_table-append k [] ys = refl
find_table-append k (x ∷ xs) ys = ground (arith, find_table-append k xs ys)

-- A joined list holds no two tables of one key, and under each key the table of the first list, or
-- else that of the second: nothing is lost and nothing is added.
pub merge_lookup_tables_first :
    (primary supplemental : List LookupTable)
    → IsDistinct (map (λ (t : LookupTable). t.key) (merge_lookup_tables primary supplemental))
      × ((k : Pubkey)
          → find_table k (merge_lookup_tables primary supplemental)
            ≡ or_else (find_table k primary) (find_table k supplemental))
unfolding merge_lookup_tables
merge_lookup_tables_first primary supplemental = (
  first_by-IsDistinct (λ (t : LookupTable). t.key) [] (primary ++ supplemental),
  λ k.
      find_table-first_by k [] (primary ++ supplemental) ∙ find_table-append k primary supplemental,
)

-- What a load that succeeds holds.
abbrev Keyed : Result TradeError (List LookupTable) → List Pubkey → Type 0
Keyed (ok tables) keys = map (λ (t : LookupTable). t.key) tables ≡ keys
Keyed (err e) keys = Unit

abbrev HasKey : Result TradeError LookupTable → Pubkey → Type 0
HasKey (ok table) key = table.key ≡ key
HasKey (err e) key = Unit

module _ {W : Type 0} ⦃program : TableProgram⦄ ⦃reads : TableReads W⦄ where
  load_address_lookup_table-HasKey :
      (address : Pubkey) (w : W) → HasKey (load_address_lookup_table address w).0 address
  unfolding load_address_lookup_table decode_lookup_table
  load_address_lookup_table-HasKey address w = ground arith

  load_from-Keyed :
      (seen addresses : List Pubkey) (w : W)
      → Keyed (load_from seen addresses w).0 (first_by (λ k. k) seen addresses)
  unfolding load_from first_by
  load_from-Keyed seen [] w = refl
  load_from-Keyed seen (address ∷ addresses) w = ground (
    arith,
    load_address_lookup_table-HasKey address w,
    load_from-Keyed seen addresses w,
    load_from-Keyed (address ∷ seen) addresses (load_address_lookup_table address w).1,
  )

  -- Tables that were loaded stand for the requested addresses, each once, in the order in which they
  -- were first requested.
  pub load_address_lookup_tables-keys :
      (addresses : List Pubkey) (w w' : W) {tables : List LookupTable}
      → load_address_lookup_tables addresses w ≡ (ok tables, w')
      → (map (λ (t : LookupTable). t.key) tables ≡ first_by (λ k. k) [] addresses)
        × IsDistinct (map (λ (t : LookupTable). t.key) tables)
  unfolding load_address_lookup_tables
  load_address_lookup_tables-keys addresses w w' {tables} e =
      let keyed : Keyed (load_from [] addresses w).0 (first_by (λ k. k) [] addresses) =
        load_from-Keyed [] addresses w in
      let keys : map (λ (t : LookupTable). t.key) tables ≡ first_by (λ k. k) [] addresses =
        subst
          (λ (r : Result TradeError (List LookupTable) × W).
            Keyed r.0 (first_by (λ k. k) [] addresses))
          e keyed in
      (
        keys,
        subst IsDistinct (sym (keys ∙ map_id (first_by (λ k. k) [] addresses)))
            (first_by-IsDistinct (λ k. k) [] addresses),
      )

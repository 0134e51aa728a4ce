-- ===== src/Solana/LookupTables/Shared.antt =====
-- `shared_lookup_addresses` of `src/solana/lookup_table.rs`: what every trade of the two venues names.
use trading_aggregators.Prelude.{◌≡◌, sym, subst, arith, none, List, [], ◌∷◌, ◌++◌}
use trading_aggregators.Error.{Result, ok, err}
use trading_aggregators.Action.{Action, AnyError, lift, pure, attempt, ◌>>=◌}
use trading_aggregators.Solana.Keys.{
  Pubkey, system_program, token_program, token_2022_program, ata_program, compute_budget_program,
  wsol, usdc_mint,
}
use trading_aggregators.Solana.Common.{Platform}
use trading_aggregators.Solana.Node.{AccountReads, Borsh}
use trading_aggregators.Solana.LookupTables.{first_by}
use trading_aggregators.Solana.LookupTables.Merging.{IsDistinct, first_by-IsDistinct, map_id}
use trading_aggregators.Solana.PumpFun.Venue as PumpFun
use trading_aggregators.Solana.PumpSwap.Venue as PumpSwap

-- `BloxrouteSubmitter::DEFAULT_TIP_ACCOUNT`
abbrev default_tip_account : Pubkey
default_tip_account =
    0xf538_6f12_bd97_559f_86e4_6eba_1378_7b28_f8d3_c242_68e6_b9f1_0366_7e1f_a055_289b

-- An action of a venue whose caches are new and are dropped afterwards.
abbrev on_pumpfun : {W A : Type 0} → Action (PumpFun.State W) AnyError A → Action W AnyError A
on_pumpfun m w =
    let (r, s) = m (record { fee_cache = none; world = w }) in (r, PumpFun.State.world s)

abbrev on_pumpswap : {W A : Type 0} → Action (PumpSwap.State W) AnyError A → Action W AnyError A
on_pumpswap m w =
    let (r, s) = m (record {
      fee_cache = none;
      vault_cache = none;
      sol_usdc_pool = PumpSwap.default_sol_usdc_pool;
      world = w;
    }) in
    (r, PumpSwap.State.world s)

-- The addresses of the programs and mints, then the venues', each once.
shared : List Pubkey → List Pubkey → List Pubkey
shared curve_addresses swap_addresses =
    first_by (λ (address : Pubkey). address) []
      ((system_program ∷ token_program ∷ token_2022_program ∷ ata_program ∷ compute_budget_program
          ∷ wsol ∷ usdc_mint ∷ default_tip_account ∷ [])
        ++ (curve_addresses ++ swap_addresses))

shared-IsDistinct : (xs ys : List Pubkey) → IsDistinct (shared xs ys)
unfolding shared
shared-IsDistinct xs ys =
    subst IsDistinct (sym (map_id _)) (first_by-IsDistinct (λ (address : Pubkey). address) [] _)

module _ {W : Type 0} ⦃p : Platform⦄ ⦃b : Borsh⦄ ⦃rpc : AccountReads W⦄ where
  shared_lookup_addresses : Action W AnyError (List Pubkey)
  unfolding shared
  shared_lookup_addresses = do
    curve_read ← attempt (on_pumpfun PumpFun.shared_lookup_addresses)
    swap_read ← attempt (on_pumpswap PumpSwap.shared_lookup_addresses)
    curve_addresses ← lift curve_read
    swap_addresses ← lift swap_read
    pure (shared curve_addresses swap_addresses)

  joined-IsDistinct :
      (curve_read swap_read : Result AnyError (List Pubkey)) (w : W) {addresses : List Pubkey}
      → ((lift curve_read >>= λ xs. lift swap_read >>= λ ys. pure (shared xs ys)) w).0
        ≡ ok addresses
      → IsDistinct addresses
  joined-IsDistinct (ok xs) (ok ys) w {addresses} e =
      let same : shared xs ys ≡ addresses = ground arith in
      subst IsDistinct same (shared-IsDistinct xs ys)
  joined-IsDistinct (ok xs) (err x) w e = absurd (ground arith)
  joined-IsDistinct (err x) swap_read w e = absurd (ground arith)

  -- A list of shared addresses holds no address twice.
  shared_lookup_addresses-IsDistinct :
      (w : W) {addresses : List Pubkey}
      → (shared_lookup_addresses w).0 ≡ ok addresses
      → IsDistinct addresses
  unfolding shared_lookup_addresses
  shared_lookup_addresses-IsDistinct w e =
      let (curve_read, w₁) = on_pumpfun PumpFun.shared_lookup_addresses w in
      let (swap_read, w₂) = on_pumpswap PumpSwap.shared_lookup_addresses w₁ in
      joined-IsDistinct curve_read swap_read w₂ e

-- ===== src/Solana/PumpFun/Instructions/Layouts.antt =====
-- Account positions in the Pump.fun instructions.
use trading_aggregators.Prelude.{ℕ, ◌≡◌, false, some, length, get_elem?, if◌then◌else◌, arith}
use trading_aggregators.Solana.Keys.{Pubkey, writable, readonly}
use trading_aggregators.Solana.Types.{Trade}
use trading_aggregators.Solana.Common.{Platform}
use trading_aggregators.Solana.PumpFun.Quote.{FeeSettings, Curve}
use trading_aggregators.Solana.PumpFun.Instructions.{sell_ix, user_volume_pda, bonding_curve_v2_pda}

module _ ⦃p : Platform⦄ where
  -- On a cashback coin the first account behind the fourteen named ones of a sale is the wallet's
  -- volume accumulator, and the second curve follows it; on any other coin the second curve stands
  -- first there. The buyback recipient is always last.
  pub sell_ix_remaining :
      (t : Trade) (pool : Pubkey) (curve : Curve) (fees : FeeSettings) (base_in min_sol : ℕ)
      → let accounts = (sell_ix t pool curve fees base_in min_sol).accounts in
        let v2 = readonly (bonding_curve_v2_pda t.mint) false in
        (get_elem? accounts 14
          ≡ some (if curve.is_cashback then writable (user_volume_pda t.wallet) false else v2))
        × (get_elem? accounts (if curve.is_cashback then 15 else 14) ≡ some v2)
        × (get_elem? accounts (if curve.is_cashback then 16 else 15)
            ≡ some (writable fees.buyback_recipient false))
        × (length accounts ≡ (if curve.is_cashback then 17 else 16))
  unfolding sell_ix
  sell_ix_remaining t pool curve fees base_in min_sol = ground arith

-- ===== src/Solana/PumpFun/SpotPrice.antt =====
-- `curve_spot_price` of `src/solana/dexes/pumpfun/mod.rs`.
use trading_aggregators.Prelude.{ℕ, ◌&&◌, List, ltb, ◌==◌}
use trading_aggregators.Error.{Result, ok, ok_or, ensure, ◌>>=◌, ◌>>◌}
use trading_aggregators.Action.{AnyError, other}
use trading_aggregators.Floats.{F64, Floats}
use trading_aggregators.Solana.Keys.{Pubkey}
use trading_aggregators.Solana.Common.{Platform}
use trading_aggregators.Solana.Node.{Borsh}
use trading_aggregators.Solana.PumpFun.Layout.{decode_curve, is_sol_quoted}
use trading_aggregators.Solana.PumpFun.Instructions.{bonding_curve_pda}

-- Lamports per base unit of the token; the curve's address is checked against the mint's.
pub curve_spot_price :
    ⦃p : Platform⦄ ⦃b : Borsh⦄ ⦃f : Floats⦄ → Pubkey → Pubkey → List ℕ → Result AnyError F64
curve_spot_price ⦃p⦄ ⦃b⦄ ⦃f⦄ curve_address mint curve_data =
    ensure (curve_address == bonding_curve_pda mint)
      (other "pumpfun: address is not the bonding curve of the mint")
    >> (ok_or (decode_curve curve_data) (other "borsh") >>= λ curve.
        ensure (is_sol_quoted curve && ltb 0 curve.virtual_token_reserves)
          (other "pumpfun: curve has no SOL price")
        >> ok
            (f.div (f.of_u64 curve.virtual_quote_reserves) (f.of_u64 curve.virtual_token_reserves)))

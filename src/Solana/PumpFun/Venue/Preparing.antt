-- ===== src/Solana/PumpFun/Venue/Preparing.antt =====
-- The fee cache, and how a prepared swap relates to its quote.
use trading_aggregators.Prelude.{◌≡◌, arith}
use trading_aggregators.Error.{ok}
use trading_aggregators.Solana.Types.{Trade, PreparedSwap}
use trading_aggregators.Solana.Common.{Platform}
use trading_aggregators.Solana.Node.{AccountReads, Borsh}
use trading_aggregators.Solana.PumpFun.Quote.{FeeSettings}
use trading_aggregators.Solana.PumpFun.Venue.{State, fee_settings, quote, prepare_swap}

module _ {W : Type 0} ⦃p : Platform⦄ ⦃b : Borsh⦄ ⦃rpc : AccountReads W⦄ where
  -- Once the fee settings were read, a later call returns the same ones and reads nothing.
  pub fee_settings_once :
      (s s' : State W) {f : FeeSettings}
      → fee_settings s ≡ (ok f, s')
      → fee_settings s' ≡ (ok f, s')
  unfolding fee_settings
  fee_settings_once s s' e = ground arith

  -- A swap is prepared exactly with the quote that `quote` would give in the same state, and leaves
  -- the same state behind.
  pub prepare_swap-quote :
      (t : Trade) (s s' : State W) {prepared : PreparedSwap}
      → prepare_swap t s ≡ (ok prepared, s')
      → quote t s ≡ (ok prepared.quote, s')
  unfolding quote prepare_swap
  prepare_swap-quote t s s' e = ground arith

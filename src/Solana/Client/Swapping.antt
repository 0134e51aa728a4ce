-- ===== src/Solana/Client/Swapping.antt =====
-- `prepare_selected_swap` of `src/solana/client/routing.rs` and the swaps of
-- `src/solana/client/mod.rs`. A source's adapter is the interface `Dex`.
mod Tests
pub mod Choosing
pub mod Outcome
use trading_aggregators.Prelude.{
  ℕ, ◌-◌, String, Bool, true, false, not, ◌&&◌, Option, none, some, List, [], is_some, map, or_else,
}
use trading_aggregators.Error.{TradeError, build, venue, Result, ok, err, raise_if}
use trading_aggregators.Action.{
  Action, lift, pure, infallible, map_err, attempt, AnyError, dex_err, ◌>>=◌, ◌>>◌,
}
use trading_aggregators.Floats.{Floats}
use trading_aggregators.Solana.Keys.{Pubkey}
use trading_aggregators.Solana.Types.{
  QuoteSource, native_venue, is_usdc, Trade, validate, Quote, PreparedSwap, LookupTable,
  NativeMarket, SwapResult, SwapStatus, confirmed, failed, pending,
}
use trading_aggregators.Solana.Common.{Platform, ata}
use trading_aggregators.Solana.Node.{Account, AccountReads, Borsh}
use trading_aggregators.Solana.ProviderFee.{ProviderFee}
use trading_aggregators.Solana.GasSponsor.{GasSponsor}
use trading_aggregators.Solana.LookupTables.{
  TableProgram, TableReads, merge_lookup_tables, load_address_lookup_tables,
}
use trading_aggregators.Solana.Chain.{Chain, Compiler, Submitter}
use trading_aggregators.Solana.Client.UsdValues.{PoolPrices}
use trading_aggregators.Solana.Client.Routing.{
  Client, quote_source_for, sponsor_for, provider_fee_of, transfer_fee, routed_trade,
  accept_candidate,
}
use trading_aggregators.Solana.Executor.Budget.{V1Config}
use trading_aggregators.Solana.Executor.Signing.{SwapSigners}
use trading_aggregators.Solana.Executor.Submitting.{submit_swap}
use trading_aggregators.Solana.Executor.Confirming.{confirm, check_status}
use trading_aggregators.Solana.Executor.Balances.{output_balance, token_balance}

-- 15 seconds, in milliseconds.
abbrev pub route_preparation_timeout : ℕ
route_preparation_timeout = 15_000

-- The adapters of the six sources, the pools' prices, and `tokio::time::timeout`, whose expiry is
-- `none`.
pub record Adapters (W : Type 0) : Type 0 where
  pub name : QuoteSource → String
  pub prepare_swap : QuoteSource → Trade → Action W AnyError PreparedSwap
  pub prepare_sponsored_swap : QuoteSource → Trade → Pubkey → Action W AnyError PreparedSwap
  pub prepare_with_fee :
      QuoteSource → Trade → Option Pubkey → ProviderFee → Action W TradeError PreparedSwap
  pub find_market : QuoteSource → Pubkey → Action W AnyError (Option NativeMarket)
  pub pool_prices : Trade → QuoteSource → W → Option PoolPrices × W
  pub timeout :
      ℕ → Action W TradeError PreparedSwap → Action W (Unit {0}) (Result TradeError PreparedSwap)

abbrev pub wallet_of : Option GasSponsor → Option Pubkey
wallet_of none = none
wallet_of (some g) = some g.wallet

module _ {W : Type 0} ⦃adapters : Adapters W⦄ where
  -- `bounded_route`
  pub bounded_route : String → Action W TradeError PreparedSwap → Action W TradeError PreparedSwap
  bounded_route name preparation =
      map_err (λ _. venue name "route preparation timed out")
        (adapters.timeout route_preparation_timeout preparation)
      >>= lift

  unsponsored_or : QuoteSource → Trade → Option GasSponsor → Action W AnyError PreparedSwap
  unsponsored_or source t none = adapters.prepare_swap source t
  unsponsored_or source t (some g) = adapters.prepare_sponsored_swap source t g.wallet

  -- `prepare_route` and `prepare_provider_fee_swap`; the sources of the latter are those that
  -- `provider_fee` lets through.
  pub prepare_route :
      Client → QuoteSource → Trade → Option ProviderFee → Action W TradeError PreparedSwap
  unfolding unsponsored_or
  prepare_route c source t none =
      map_err (dex_err (adapters.name source)) (unsponsored_or source t (sponsor_for c t))
  prepare_route c source t (some fee) =
      adapters.prepare_with_fee source t (wallet_of (sponsor_for c t)) fee

  module _ ⦃p : Platform⦄ ⦃f : Floats⦄ where
    -- The part behind the choice of source and fee.
    pub prepare_routed :
        Client → Trade → QuoteSource → Option ProviderFee → Trade → Action W TradeError PreparedSwap
    prepare_routed c t source collected routed = do
      candidate ←
          attempt (bounded_route (adapters.name source) (prepare_route c source routed collected))
      prices ← infallible (adapters.pool_prices t source)
      found ← lift candidate
      lift (accept_candidate c t routed collected prices found)

    pub prepare_selected_swap : Client → Trade → Action W TradeError PreparedSwap
    prepare_selected_swap c t = do
      lift (validate t)
      lift (
          raise_if (is_some (native_venue (quote_source_for c t)) && is_usdc t.settlement)
            (build "Pump.fun and PumpSwap trade SOL only; use an aggregator for USDC"))
      collected ← lift (provider_fee_of c.sdk_fee t (quote_source_for c t))
      routed ← lift (routed_trade c t (transfer_fee c collected))
      prepare_routed c t (quote_source_for c t) collected routed

    -- `TradingClient::quote`
    pub quote : Client → Trade → Action W TradeError Quote
    quote c t = prepare_selected_swap c t >>= λ prepared. pure prepared.quote

  -- `find_native_market`: a live curve comes before a graduated pool.
  pub find_native_market : Pubkey → Action W TradeError (Option NativeMarket)
  find_native_market mint = do
    curve ← attempt (
        map_err (dex_err (adapters.name QuoteSource.pump_fun))
          (adapters.find_market QuoteSource.pump_fun mint))
    pool ← attempt (
        map_err (dex_err (adapters.name QuoteSource.pump_swap))
          (adapters.find_market QuoteSource.pump_swap mint))
    bonding_curve ← lift curve
    graduated_pool ← lift pool
    pure (or_else bonding_curve graduated_pool)

-- `saturating_sub` of the balances, where both are known.
abbrev pub received : Option ℕ → Option ℕ → Option ℕ
received (some before) (some after) = some (after - before)
received _ _ = none

module _ {W : Type 0} ⦃chain : Chain W⦄ ⦃rpc : AccountReads W⦄ ⦃p : Platform⦄ ⦃b : Borsh⦄ where
  -- What `swap_with_lookup_tables` reports once the confirmation has answered.
  pub outcome : Trade → Option ℕ → SwapResult → SwapStatus → W → Result TradeError SwapResult × W
  outcome t before result confirmed w =
      let (after, w') = output_balance t w in
      (ok (record result { status = confirmed; amount_received = received before after }), w')
  outcome t before result failed w =
      (ok (record result { status = failed; amount_received = none }), w)
  outcome t before result pending w =
      (ok (record result { status = pending; amount_received = none }), w)

  -- The confirmation's answer; a loop that still runs would be `none`.
  pub confirmed_swap :
      ℕ → Trade → Option ℕ → SwapResult → W → Option (Result TradeError SwapResult) × W
  confirmed_swap deadline t before result w =
      let (answer, w') = confirm result.hash deadline w in
      elim answer [
        | none ↦ (none, w')
        | some (err e) ↦ (some (err e), w')
        | some (ok status) ↦ let (r, w'') = outcome t before result status w' in (some r, w'')
      ]

  module _ ⦃adapters : Adapters W⦄ ⦃compiler : Compiler V1Config⦄ ⦃f : Floats⦄ where
    -- `submit_prepared`: there is no fallback behind it.
    pub submit_prepared :
        Client
        → Trade
        → PreparedSwap
        → SwapSigners W
        → Submitter W
        → ℕ
        → List LookupTable
        → Action W TradeError SwapResult
    submit_prepared c t prepared signers submitter fee tables =
        submit_swap prepared (record signers { sponsor = sponsor_for c t }) submitter t fee
          (merge_lookup_tables tables c.shared_lookup_tables)

    -- `submit_with_lookup_tables`
    pub submit :
        Client
        → Trade
        → SwapSigners W
        → Submitter W
        → ℕ
        → List LookupTable
        → Action W TradeError SwapResult
    submit c t signers submitter fee tables = prepare_selected_swap c t >>= λ prepared.
        submit_prepared c t prepared signers submitter fee tables

    -- `swap_with_lookup_tables`: the balance is read before anything is sent.
    pub swap :
        Client
        → ℕ
        → Trade
        → SwapSigners W
        → Submitter W
        → ℕ
        → List LookupTable
        → W
        → Option (Result TradeError SwapResult) × W
    swap c deadline t signers submitter fee tables w =
        let (before, w₁) = output_balance t w in
        let (sent, w₂) = submit c t signers submitter fee tables w₁ in
        elim sent [
          | err e ↦ (some (err e), w₂)
          | ok result ↦ confirmed_swap deadline t before result w₂
        ]

  -- `TradingClient::token_balance`
  pub wallet_balance : Pubkey → Pubkey → Action W TradeError ℕ
  wallet_balance wallet mint =
      map_err (λ _. TradeError.rpc "get_account(mint)") (rpc.get_account mint) >>= λ account.
      token_balance (ata wallet mint account.owner)

-- `with_shared_lookup_tables`
pub with_shared_lookup_tables : Client → List LookupTable → Client
with_shared_lookup_tables c tables = record c {
  shared_lookup_tables = merge_lookup_tables tables [];
}

-- `refresh_shared_lookup_tables`: the client after it, which a failed refresh leaves as it was.
pub refreshed :
    Client → Result TradeError (List LookupTable) → Result TradeError (Unit {0}) × Client
refreshed c (err e) = (err e, c)
refreshed c (ok tables) = (ok tt, record c { shared_lookup_tables = tables })

module _ {W : Type 0} ⦃program : TableProgram⦄ ⦃reads : TableReads W⦄ where
  pub refresh_shared_lookup_tables : Client → W → (Result TradeError (Unit {0}) × Client) × W
  refresh_shared_lookup_tables c w =
      let (answer, w') =
        load_address_lookup_tables (map (λ (t : LookupTable). t.key) c.shared_lookup_tables) w in
      (refreshed c answer, w')

-- ===== src/Solana/PumpFun/Venue.antt =====
-- The Pump.fun adapter: the fee cache, the account reads, quotes and prepared swaps.
pub mod Preparing
use trading_aggregators.Prelude.{
  ℕ, String, ◌≡◌, Bool, true, false, not, ◌&&◌, Option, none, some, List, [], ◌∷◌, ◌==◌,
  if◌then◌else◌, unwrap_or, or_else, ◌++◌,
}
use trading_aggregators.Error.{
  Result, ok, err, ok_or, ensure, raise_if, map_err as map_err_result, ◌>>=◌ as ◌>>=ᵣ◌,
  ◌>>◌ as ◌>>ᵣ◌,
}
use trading_aggregators.Action.{Action, AnyError, other, lift, pure, ◌>>=◌, ◌>>◌}
use trading_aggregators.Solana.Keys.{Pubkey, Instruction}
use trading_aggregators.Solana.Types.{
  Side, buy, sell, is_usdc, QuoteSource, NativeMarket, Trade, Quote, PreparedSwap, v0,
}
use trading_aggregators.Solana.Common.{Platform, create_ata_idempotent}
use trading_aggregators.Solana.Node.{Account, AccountReads, Borsh, decode_account}
use trading_aggregators.Solana.PumpFun.Layout.{
  BondingCurveAccount, GlobalAccount, is_sol_quoted, read_global, decode_curve,
}
use trading_aggregators.Solana.PumpFun.Quote.{FeeSettings, Curve, compute_quote}
use trading_aggregators.Solana.PumpFun.Instructions.{
  program_id, fee_program_id, event_authority_pda, global_volume_pda, fee_config_pda,
  bonding_curve_pda, global_pda, buy_ix, sell_ix,
}

-- The world, and `PumpFun::fee_settings`: a cell that is written once.
pub record State (W : Type 0) : Type 0 where
  pub fee_cache : Option FeeSettings
  pub world : W

abbrev pub sol_only : String
sol_only = "pumpfun trades SOL only; use an aggregator for USDC"

abbrev pub on_world : {W A : Type 0} → Action W String A → Action (State W) AnyError A
on_world m s =
    let (r, w) = m s.world in
    (map_err_result other r, record { fee_cache = s.fee_cache; world = w })

-- The first entry of a Borsh array.
abbrev pub first_key : List Pubkey → Pubkey
first_key [] = 0
first_key (k ∷ ks) = k

abbrev pub settings_of : GlobalAccount → FeeSettings
settings_of g = record {
  standard_recipient = g.fee_recipient;
  mayhem_recipient = g.reserved_fee_recipient;
  buyback_recipient = first_key g.buyback_fee_recipients;
  protocol_bps = g.fee_basis_points;
  creator_bps = g.creator_fee_basis_points;
}

-- The market behind the curve's account; a foreign owner is no curve.
market_of : ⦃b : Borsh⦄ → Pubkey → Option Account → Result AnyError (Option NativeMarket)
market_of address none = ok none
market_of address (some account) =
    if account.owner == program_id
    then (ok_or (decode_curve account.bytes) (other "borsh") >>=ᵣ λ curve. ok (
        if not curve.complete && is_sol_quoted curve
        then some (record { source = QuoteSource.pump_fun; pool = address })
        else none))
    else ok none

-- The checks of `load_curve` on the two accounts that it reads.
curve_of : ⦃b : Borsh⦄ → List (Option Account) → Result AnyError Curve
curve_of (some curve_account ∷ some mint_account ∷ rest) =
    ok_or (decode_curve curve_account.bytes) (other "pumpfun: bad bonding curve") >>=ᵣ λ c.
    raise_if c.complete (other "pumpfun: bonding curve complete")
    >>ᵣ raise_if (not (is_sol_quoted c)) (other "pumpfun: only SOL-quoted curves are supported")
    >>ᵣ ok (record {
      creator = c.creator;
      base_reserves = c.virtual_token_reserves;
      quote_reserves = c.virtual_quote_reserves;
      real_token_reserves = c.real_token_reserves;
      is_mayhem = c.is_mayhem_mode;
      is_cashback = c.is_cashback_coin;
      token_program = mint_account.owner;
    })
curve_of (none ∷ rest) = err (other "pumpfun: bonding curve not found")
curve_of _ = err (other "pumpfun: mint not found")

-- The instructions of a prepared swap: a buy first makes the wallet's token account.
swap_instructions :
    ⦃p : Platform⦄ → Trade → Pubkey → Curve → FeeSettings → ℕ → Side → List Instruction
swap_instructions t pool curve fees min_out buy =
    create_ata_idempotent t.wallet t.wallet t.mint curve.token_program
    ∷ buy_ix t pool curve fees t.amount min_out
    ∷ []
swap_instructions t pool curve fees min_out sell = sell_ix t pool curve fees t.amount min_out ∷ []

module _ {W : Type 0} ⦃p : Platform⦄ ⦃b : Borsh⦄ ⦃rpc : AccountReads W⦄ where
  -- `fee_settings.get()`, and `fee_settings.set(f)`, which keeps an earlier value.
  abbrev pub cached : Action (State W) AnyError (Option FeeSettings)
  cached s = (ok s.fee_cache, s)

  abbrev pub fill_cache : FeeSettings → Action (State W) AnyError (Unit {0})
  fill_cache f s = (ok tt, record { fee_cache = or_else s.fee_cache (some f); world = s.world })

  pub fee_settings : Action (State W) AnyError FeeSettings
  fee_settings = do
    hit ← cached
    elim hit [
      | some f ↦ pure f
      | none ↦ do
        account ← on_world (rpc.get_account global_pda)
        global ← lift (ok_or (decode_account read_global account.bytes) (other "borsh"))
        fill_cache (settings_of global)
        pure (settings_of global)
    ]

  pub find_market : Pubkey → Action (State W) AnyError (Option NativeMarket)
  unfolding market_of
  find_market mint = do
    response ← on_world (rpc.get_account_with_commitment (bonding_curve_pda mint))
    lift (market_of (bonding_curve_pda mint) response)

  pub load_curve : Pubkey → Pubkey → Action (State W) AnyError Curve
  unfolding curve_of
  load_curve curve_address mint = do
    accounts ← on_world (rpc.get_multiple_accounts (curve_address ∷ mint ∷ []))
    lift (curve_of accounts)

  -- `PumpFun::shared_lookup_addresses`
  pub shared_lookup_addresses : Action (State W) AnyError (List Pubkey)
  shared_lookup_addresses = do
    account ← on_world (rpc.get_account global_pda)
    global ← lift (ok_or (decode_account read_global account.bytes) (other "borsh"))
    pure (
        program_id
        ∷ fee_program_id
        ∷ global_pda
        ∷ event_authority_pda
        ∷ global_volume_pda
        ∷ fee_config_pda
        ∷ global.fee_recipient
        ∷ global.reserved_fee_recipient
        ∷ (global.fee_recipients
            ++ (global.reserved_fee_recipients ++ global.buyback_fee_recipients)))

  -- `<PumpFun as Dex>::quote` and `::prepare_swap`.
  pub quote : Trade → Action (State W) AnyError Quote
  quote t = do
    lift (ensure (not (is_usdc t.settlement)) (other sol_only))
    curve ← load_curve (unwrap_or t.pool (bonding_curve_pda t.mint)) t.mint
    fees ← fee_settings
    pure (compute_quote curve fees t.side t.amount t.slippage_bps)

  pub prepare_swap : Trade → Action (State W) AnyError PreparedSwap
  unfolding swap_instructions
  prepare_swap t = do
    lift (ensure (not (is_usdc t.settlement)) (other sol_only))
    let pool = unwrap_or t.pool (bonding_curve_pda t.mint)
    curve ← load_curve pool t.mint
    fees ← fee_settings
    let q = compute_quote curve fees t.side t.amount t.slippage_bps
    pure (record {
      venue = "pumpfun";
      quote = q;
      instructions = swap_instructions t pool curve fees q.min_out t.side;
      lookup_tables = [];
      format = v0;
    })

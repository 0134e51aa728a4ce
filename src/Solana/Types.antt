-- ===== src/Solana/Types.antt =====
-- `src/solana/types.rs` and `src/usd_value.rs`: trades, quotes and prepared swaps. A USD value keeps
-- its two `f64` as bit patterns.
use trading_aggregators.Prelude.{
  ℕ, String, Bool, true, false, ◌||◌, Option, none, some, List, ◌==◌, leb,
}
use trading_aggregators.Error.{TradeError, build, Result, raise_if}
use trading_aggregators.Solana.Keys.{Pubkey, Instruction, wsol, usdc_mint}

abbrev pub basis_points : ℕ
basis_points = 10_000

pub data Side : Type 0 where
  buy sell : Side

pub data Venue : Type 0 where
  pump_fun pump_swap : Venue

pub data QuoteSource : Type 0 where
  jupiter dflow bloxroute relay pump_fun pump_swap : QuoteSource

pub data Settlement : Type 0 where
  sol usdc : Settlement

abbrev pub is_buy : Side → Bool
is_buy buy = true
is_buy sell = false

abbrev pub is_usdc : Settlement → Bool
is_usdc sol = false
is_usdc usdc = true

unfoldable pub native_venue : QuoteSource → Option Venue
native_venue QuoteSource.pump_fun = some Venue.pump_fun
native_venue QuoteSource.pump_swap = some Venue.pump_swap
native_venue jupiter = none
native_venue dflow = none
native_venue bloxroute = none
native_venue relay = none

pub record NativeMarket : Type 0 where
  pub source : QuoteSource
  pub pool : Pubkey

-- `Settlement::mint`
abbrev pub settlement_mint : Settlement → Pubkey
settlement_mint sol = wsol
settlement_mint usdc = usdc_mint

pub record Trade : Type 0 where
  pub settlement : Settlement
  pub wallet : Pubkey
  pub mint : Pubkey
  pub side : Side
  pub amount : ℕ
  pub slippage_bps : ℕ
  pub venue : Option Venue
  pub pool : Option Pubkey
  pub quote_source : Option QuoteSource

-- `Trade::validate`
unfoldable pub validate : Trade → Result TradeError (Unit {0})
validate t =
    raise_if
      (t.amount == 0 || leb basis_points t.slippage_bps || t.mint == settlement_mint t.settlement)
      (build
        "trade requires a positive amount, slippage below 10000 bps and a token other than the settlement currency")

pub record UsdValue : Type 0 where
  pub paid : ℕ
  pub received : ℕ

pub record Quote : Type 0 where
  pub in_amount : ℕ
  pub usd_value : Option UsdValue
  pub expected_out : ℕ
  pub min_out : ℕ
  pub fee : ℕ
  pub application_fee : ℕ
  pub sponsorship_fee : ℕ

pub data TransactionFormat : Type 0 where
  v0 v1 : TransactionFormat

-- `AddressLookupTableAccount`
pub record LookupTable : Type 0 where
  pub key : Pubkey
  pub addresses : List Pubkey

pub record PreparedSwap : Type 0 where
  pub venue : String
  pub quote : Quote
  pub instructions : List Instruction
  pub lookup_tables : List LookupTable
  pub format : TransactionFormat

pub record Tip : Type 0 where
  pub account : Pubkey
  pub lamports : ℕ

pub data SwapStatus : Type 0 where
  confirmed failed pending : SwapStatus

pub record SwapResult : Type 0 where
  pub hash : ℕ
  pub dex : String
  pub status : SwapStatus
  pub amount_received : Option ℕ
  pub application_fee : ℕ
  pub sponsorship_fee : ℕ

-- ===== src/Relay.antt =====
-- `src/aggregators/relay.rs`: Relay's quote API, which both chains share. `A` is the chain's address
-- type, `S` the transaction data inside a step and `X` the options of a chain.
use trading_aggregators.Prelude.{ℕ, String, Bool, false, ◌&&◌, Option, none, some, List, ◌==◌}
use trading_aggregators.Error.{TradeError, decode}
use trading_aggregators.Action.{Action}
use trading_aggregators.Floats.{F64, Floats}
use trading_aggregators.Text.{string_eq}
use trading_aggregators.Solana.Types.{UsdValue}
use trading_aggregators.Solana.Client.UsdValues.{from_reported}

abbrev pub venue : String
venue = "relay"

abbrev pub exact_input : String
exact_input = "EXACT_INPUT"

abbrev pub decode_error : String → TradeError
decode_error = decode venue

-- `PartialEq` of an address, and `f64::from_str`.
pub record Equality (A : Type 0) : Type 0 where
  pub eq : A → A → Bool

pub record FloatText : Type 0 where
  pub parse_f64 : String → Option F64

pub record Swap (A : Type 0) : Type 0 where
  pub wallet : A
  pub chain_id : ℕ
  pub input : A
  pub output : A
  pub amount : String
  pub slippage_bps : String

pub record AppFeeRequest (A : Type 0) : Type 0 where
  pub recipient : A
  pub fee : String

pub record QuoteRequest (A X : Type 0) : Type 0 where
  pub user : A
  pub recipient : A
  pub origin_chain_id : ℕ
  pub destination_chain_id : ℕ
  pub origin_currency : A
  pub destination_currency : A
  pub amount : String
  pub trade_type : String
  pub slippage_tolerance : String
  pub force_solver_execution : Bool
  pub chain_options : X
  pub app_fees : List (AppFeeRequest A)

-- `QuoteRequest::new`
unfoldable pub new : {A X : Type 0} → Swap A → X → List (AppFeeRequest A) → QuoteRequest A X
new swap chain_options app_fees = record {
  user = swap.wallet;
  recipient = swap.wallet;
  origin_chain_id = swap.chain_id;
  destination_chain_id = swap.chain_id;
  origin_currency = swap.input;
  destination_currency = swap.output;
  amount = swap.amount;
  trade_type = exact_input;
  slippage_tolerance = swap.slippage_bps;
  force_solver_execution = false;
  chain_options = chain_options;
  app_fees = app_fees;
}

pub record Currency (A : Type 0) : Type 0 where
  pub chain_id : ℕ
  pub address : A

pub record CurrencyAmount (A : Type 0) : Type 0 where
  pub currency : Currency A
  pub amount : String
  pub minimum_amount : String
  pub amount_usd : Option String

pub record Details (A : Type 0) : Type 0 where
  pub operation : String
  pub sender : A
  pub recipient : A
  pub currency_in : CurrencyAmount A
  pub currency_out : CurrencyAmount A

pub record StepItem (S : Type 0) : Type 0 where
  pub status : String
  pub content : Option S

pub record Step (S : Type 0) : Type 0 where
  pub id : String
  pub kind : String
  pub items : List (StepItem S)

pub record Fees (A : Type 0) : Type 0 where
  pub relayer : Option (CurrencyAmount A)
  pub app : Option (CurrencyAmount A)

pub record QuoteResponse (A S : Type 0) : Type 0 where
  pub details : Details A
  pub steps : List (Step S)
  pub fees : Fees A

-- The service behind the HTTP client.
pub record RelayApi (A X S W : Type 0) : Type 0 where
  pub quote : QuoteRequest A X → Action W TradeError (QuoteResponse A S)

-- `Details::matches`
unfoldable pub matches : {A : Type 0} → ⦃e : Equality A⦄ → Details A → Swap A → Bool
matches ⦃e⦄ d swap =
    string_eq d.operation "swap"
    && (e.eq d.sender swap.wallet
        && (e.eq d.recipient swap.wallet
            && (d.currency_in.currency.chain_id == swap.chain_id
                && (d.currency_out.currency.chain_id == swap.chain_id
                    && (e.eq d.currency_in.currency.address swap.input
                        && e.eq d.currency_out.currency.address swap.output)))))

abbrev parsed : ⦃text : FloatText⦄ → Option String → Option F64
parsed none = none
parsed ⦃text⦄ (some value) = text.parse_f64 value

-- `CurrencyAmount::usd` and `Details::usd_value`
unfoldable pub usd : {A : Type 0} → ⦃text : FloatText⦄ → CurrencyAmount A → Option F64
usd amount = parsed amount.amount_usd

unfoldable pub usd_value :
    {A : Type 0} → ⦃text : FloatText⦄ → ⦃f : Floats⦄ → Details A → Option UsdValue
usd_value d = from_reported (usd d.currency_in) (usd d.currency_out)

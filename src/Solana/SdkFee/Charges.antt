-- ===== src/Solana/SdkFee/Charges.antt =====
-- The fee's amount, and what it leaves of trades and quotes.
use native.Mathlib.Nat.{mul-le-mul_left}
use trading_aggregators.Prelude.{ℕ, ◌+◌, ◌*◌, ◌^◌, ◌≤◌, ◌<◌, ◌≡◌, arith, if◌then◌else◌}
use trading_aggregators.Prelude.Words.{mul_u128-eq_mul}
use trading_aggregators.Error.{ok}
use trading_aggregators.Solana.Keys.{Pubkey}
use trading_aggregators.Solana.Types.{is_buy, Trade, validate, Quote}
use trading_aggregators.Solana.Common.Bounds.{IsFloor}
use trading_aggregators.Solana.SdkFee.{
  SdkFee, new, with_relay_fee_recipient, amount, trade_after_fee, quote_after_fee,
}

-- What `new` establishes and the builders keep: a rate below 100% and a recipient.
pub record IsValid (fee : SdkFee) : Type 0 where
  pub rate : fee.bps < 10_000
  pub recipient_set : 0 < fee.recipient

-- Every fee that the constructor and the builders return is valid.
pub new-IsValid :
    (recipient : Pubkey) (bps : ℕ) {fee : SdkFee} → new recipient bps ≡ ok fee → IsValid fee
unfolding new
new-IsValid recipient bps e = ground arith

pub with_relay_fee_recipient-IsValid :
    (fee : SdkFee) (recipient : _) {fee' : SdkFee}
    → IsValid fee
    → with_relay_fee_recipient fee recipient ≡ ok fee'
    → IsValid fee'
unfolding with_relay_fee_recipient
with_relay_fee_recipient-IsValid fee recipient v e = ground arith

-- The fee is the rate's share of its basis rounded down, and less than a positive basis.
pub amount-IsFloor :
    (fee : SdkFee) (basis : ℕ)
    → IsValid fee
    → basis < 2 ^ 64
    → IsFloor (amount fee basis) (basis * fee.bps) 10_000
      × (amount fee basis ≤ basis)
      × (0 < basis → amount fee basis < basis)
unfolding amount
amount-IsFloor fee basis v h =
    let rate = v.rate in
    let e = mul_u128-eq_mul basis fee.bps h (omega arith) in
    let le : basis * fee.bps ≤ basis * 9_999 = mul-le-mul_left basis (omega arith) in
    (omega arith, omega arith, omega arith)

-- Under a valid fee and a `u64` amount, a trade that is accepted keeps its side, currencies and
-- settings; a buy is routed with what the fee leaves of it, which is positive, so that routed amount
-- and fee make up the amount; a sale is routed whole.
pub trade_after_fee_split :
    (fee : SdkFee) (t : Trade) {t' : Trade}
    → IsValid fee
    → t.amount < 2 ^ 64
    → trade_after_fee fee t ≡ ok t'
    → (t'.amount + (if is_buy t.side then amount fee t.amount else 0) ≡ t.amount)
      × (0 < t'.amount)
      × (t' ≡ record t { amount = t'.amount })
unfolding trade_after_fee validate
trade_after_fee_split fee t v h e = ground (arith, amount-IsFloor fee t.amount v h)

-- A quote that the fee accepts, under a valid fee and `u64` amounts: the input is the trade's whole
-- amount; the minimum output is positive and at most the expected one; a sale's fee is taken from
-- both outputs, and a buy's from neither; the fee is that of the input on a buy and of the expected
-- output on a sale.
pub quote_after_fee_split :
    (fee : SdkFee) (t : Trade) (q : Quote) {q' : Quote}
    → IsValid fee
    → q.expected_out < 2 ^ 64
    → quote_after_fee fee t q ≡ ok q'
    → let taken = if is_buy t.side then 0 else q'.application_fee in
      (q'.in_amount ≡ t.amount)
      × (0 < q'.min_out)
      × (q'.min_out ≤ q'.expected_out)
      × (q'.expected_out + taken ≡ q.expected_out)
      × (q'.min_out + taken ≡ q.min_out)
      × (q'.application_fee ≡ amount fee (if is_buy t.side then t.amount else q.expected_out))
      × (q'.sponsorship_fee ≡ q.sponsorship_fee)
unfolding quote_after_fee
quote_after_fee_split fee t q v h e = ground (arith, amount-IsFloor fee q.expected_out v h)

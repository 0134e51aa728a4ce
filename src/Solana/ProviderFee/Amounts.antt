-- ===== src/Solana/ProviderFee/Amounts.antt =====
-- Which provider fees are accepted.
use trading_aggregators.Prelude.{ℕ, ◌+◌, ◌^◌, ◌<◌, ◌≡◌, ◌↔◌, arith, if◌then◌else◌}
use trading_aggregators.Error.{ok}
use trading_aggregators.Solana.Types.{is_buy, Quote}
use trading_aggregators.Solana.SdkFee.{amount}
use trading_aggregators.Solana.ProviderFee.{ProviderFee, validate_amount}

-- The amount before the provider took its fee.
abbrev pub gross : ProviderFee → Quote → ℕ → ℕ
gross f q charged = if is_buy f.side then q.in_amount else q.expected_out + charged

-- A provider's fee is accepted exactly when its rate is the requested one and it is that rate's
-- share, rounded down, of a buy's input or of a sale's output before the fee, which must be a `u64`.
pub validate_amount_iff :
    (f : ProviderFee) (q : Quote) (charged bps : ℕ)
    → q.in_amount < 2 ^ 64
    → (validate_amount f q charged bps ≡ ok tt) ↔ (
        (bps ≡ f.fee.bps)
        × (charged ≡ amount f.fee (gross f q charged))
        × (gross f q charged < 2 ^ 64))
unfolding validate_amount amount
validate_amount_iff f q charged bps h = ground arith

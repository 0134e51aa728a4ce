-- ===== src/Solana/Sources/Accepted.antt =====
-- Which quotes `validated_quote` of `src/solana/sources/mod.rs` accepts.
use trading_aggregators.Prelude.{
  ℕ, String, ◌+◌, ◌-◌, ◌*◌, ◌/◌, ◌^◌, ◌≤◌, ◌<◌, ◌≡◌, ◌↔◌, ap, inl, inr, arith,
}
use trading_aggregators.Prelude.Words.{mul_u128-eq_mul}
use trading_aggregators.Error.{ok, Result-cases}
use trading_aggregators.Solana.Types.{basis_points, Trade, validate, Quote}
use trading_aggregators.Solana.Common.Bounds.{IsFloor-div}
use trading_aggregators.Solana.Sources.{validated_quote, slippage_floor, quote_of}

-- The amounts of a quote that the trade allows: its own input, and a minimum output that is positive,
-- at most the expected one, and less than one unit below what the slippage leaves of it.
abbrev pub IsAllowed : Trade → ℕ → ℕ → ℕ → Type 0
IsAllowed t input expected minimum =
    (input ≡ t.amount)
    × (1 ≤ minimum)
    × (minimum ≤ expected)
    × (expected * (basis_points - t.slippage_bps) < (minimum + 1) * basis_points)

slippage_floor-eq :
    (expected bps : ℕ)
    → expected < 2 ^ 64
    → slippage_floor expected bps ≡ expected * (basis_points - bps) / basis_points
slippage_floor-eq expected bps h =
    ap (λ (t : ℕ). t / basis_points) (mul_u128-eq_mul expected (basis_points - bps) h (omega arith))

floor_le :
    (expected bps minimum : ℕ)
    → expected < 2 ^ 64
    → (slippage_floor expected bps ≤ minimum)
      ↔ (expected * (basis_points - bps) < (minimum + 1) * basis_points)
floor_le expected bps minimum h =
    let e = slippage_floor-eq expected bps h in
    let (lo, hi) = IsFloor-div (expected * (basis_points - bps)) basis_points (omega arith) in
    (λ le. omega arith, λ lt. omega arith)

accepted :
    (venue : String) (t : Trade) (input expected minimum : ℕ) (q : Quote)
    → expected < 2 ^ 64
    → validated_quote venue t input expected minimum ≡ ok q
    → (validate t ≡ ok tt)
      × IsAllowed t input expected minimum
      × (q ≡ quote_of input expected minimum)
unfolding validated_quote
accepted venue t input expected minimum q h e = elim (Result-cases (validate t)) [
  | inl (tt, v) ↦ ground (arith, (floor_le expected t.slippage_bps minimum h).0)
  | inr (x, v) ↦ absurd (ground arith)
]

accepts :
    (venue : String) (t : Trade) (input expected minimum : ℕ) (q : Quote)
    → expected < 2 ^ 64
    → (validate t ≡ ok tt)
      × IsAllowed t input expected minimum
      × (q ≡ quote_of input expected minimum)
    → validated_quote venue t input expected minimum ≡ ok q
unfolding validated_quote
accepts venue t input expected minimum q h (v, allowed, e) =
    ground (arith, (floor_le expected t.slippage_bps minimum h).1)

-- A provider's quote is accepted just where the trade is valid and the quote's amounts are allowed,
-- for an expected output that is a `u64`, and the quote is then those amounts with no fee.
pub validated_quote-IsAllowed :
    (venue : String) (t : Trade) (input expected minimum : ℕ) (q : Quote)
    → expected < 2 ^ 64
    → (validated_quote venue t input expected minimum ≡ ok q) ↔ (
        (validate t ≡ ok tt)
        × IsAllowed t input expected minimum
        × (q ≡ quote_of input expected minimum))
validated_quote-IsAllowed venue t input expected minimum q h =
    (accepted venue t input expected minimum q h, accepts venue t input expected minimum q h)

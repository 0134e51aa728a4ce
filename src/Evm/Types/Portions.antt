-- ===== src/Evm/Types/Portions.antt =====
-- `portion` of `src/evm/types.rs` and the amounts that come from it.
use native.Mathlib.Nat.{mul-le-mul_left, div-add-mod}
use trading_aggregators.Prelude.{ℕ, ◌+◌, ◌*◌, ◌/◌, ◌%◌, ◌^◌, ◌≤◌, ◌<◌, ◌≡◌, ap, arith}
use trading_aggregators.Prelude.Words.{mul_u256-eq_mul}
use trading_aggregators.Evm.Types.{portion, basis_points}

split_product :
    (amount bps : ℕ)
    → amount * bps ≡ basis_points * (amount / basis_points * bps) + amount % basis_points * bps
split_product amount bps = omega (arith, ap (λ (t : ℕ). t * bps) (div-add-mod amount basis_points))

whole_part_le :
    (amount bps : ℕ)
    → bps ≤ basis_points
    → amount / basis_points * bps ≤ amount / basis_points * basis_points
whole_part_le amount bps h = mul-le-mul_left (amount / basis_points) h

rest_le :
    (amount bps : ℕ)
    → bps ≤ basis_points
    → amount % basis_points * bps ≤ amount % basis_points * basis_points
rest_le amount bps h = mul-le-mul_left (amount % basis_points) h

-- The portion is exact for every 256-bit amount and every rate up to the whole: it is the product by
-- the rate over 10000 rounded down, though the product itself may not fit 256 bits.
pub portion-eq_floor :
    (amount bps : ℕ)
    → amount < 2 ^ 256
    → bps ≤ basis_points
    → (portion amount bps ≡ amount * bps / basis_points) × (portion amount bps ≤ amount)
unfolding portion
portion-eq_floor amount bps fits le =
    let whole = whole_part_le amount bps le in
    let rest = rest_le amount bps le in
    let e₁ = mul_u256-eq_mul (amount / basis_points) bps (omega arith) in
    let e₂ = mul_u256-eq_mul (amount % basis_points) bps (omega arith) in
    omega (arith, split_product amount bps)

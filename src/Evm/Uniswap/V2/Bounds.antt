-- ===== src/Evm/Uniswap/V2/Bounds.antt =====
-- What a v2 pair's quote promises: `src/evm/dexes/uniswap/v2.rs`.
use native.Mathlib.Nat.{mul-le-mul, mul-le-mul_right}
use trading_aggregators.Prelude.{ℕ, ◌+◌, ◌-◌, ◌*◌, ◌/◌, ◌^◌, ◌≤◌, ◌<◌, ◌≡◌, ◌%◌, refl, ap, arith}
use trading_aggregators.Prelude.Words.{mul_u256-eq_mul}
use trading_aggregators.Solana.Common.Bounds.{IsFloor-div}
use trading_aggregators.Evm.Uniswap.V2.{amount_out, input_kept_per_mille, per_mille}

product_lt : (a b : ℕ) → a < 2 ^ 138 → b < 2 ^ 112 → a * b < 2 ^ 256
product_lt a b ha hb =
    let p : a * b ≤ (2 ^ 138 - 1) * (2 ^ 112 - 1) =
      mul-le-mul {n₂ = 2 ^ 138 - 1} {m₂ = 2 ^ 112 - 1} (omega arith) (omega arith) in
    omega arith

-- None of the 256-bit operations wraps.
amount_out-eq :
    (reserve_in reserve_out amount : ℕ)
    → reserve_in < 2 ^ 112
    → reserve_out < 2 ^ 112
    → amount < 2 ^ 128
    → amount_out reserve_in reserve_out amount
      ≡ amount
        * input_kept_per_mille
        * reserve_out
        / (reserve_in * per_mille + amount * input_kept_per_mille)
unfolding amount_out
amount_out-eq reserve_in reserve_out amount hi ho ha =
    let e₁ = mul_u256-eq_mul amount input_kept_per_mille (omega arith) in
    let e₂ = mul_u256-eq_mul reserve_in per_mille (omega arith) in
    let e₃ =
      mul_u256-eq_mul (amount * input_kept_per_mille) reserve_out
        (product_lt (amount * input_kept_per_mille) reserve_out (omega arith) ho) in
    let e₄ : (reserve_in * per_mille + amount * input_kept_per_mille) % 2 ^ 256
        ≡ reserve_in * per_mille + amount * input_kept_per_mille =
      omega arith in
    simp (e₁, e₂, e₃, e₄) refl

kept_product : (a b x out : ℕ) → out ≤ b → out * (a + x) ≤ x * b → a * b ≤ (a + x) * (b - out)
kept_product a b x out h₀ h =
    let e : b ≡ (b - out) + out = omega arith in omega (arith, ap (λ (t : ℕ). (a + x) * t) e)

share_lt : (a b x out : ℕ) → 0 < a → 0 < b → out * (a + x) ≤ x * b → out < b
share_lt a b x out ha hb h =
    grind
      (arith, λ (le : b ≤ out). mul-le-mul_right (a + x) le, λ (le : 1 ≤ b). mul-le-mul_right a le)

-- A v2 quote takes less than the pair's reserve, never lowers the product of the reserves that the
-- input less the pair's 0.3 % makes, and is the greatest such output, for reserves below 2^112 and
-- amounts below 2^128.
pub amount_out_keeps_product :
    (reserve_in reserve_out amount : ℕ)
    → 0 < reserve_in
    → 0 < reserve_out
    → reserve_in < 2 ^ 112
    → reserve_out < 2 ^ 112
    → amount < 2 ^ 128
    → let out = amount_out reserve_in reserve_out amount in
      let kept = amount * input_kept_per_mille in
      (out < reserve_out)
      × (reserve_in * per_mille * reserve_out
          ≤ (reserve_in * per_mille + kept) * (reserve_out - out))
      × (kept * reserve_out < (out + 1) * (reserve_in * per_mille + kept))
amount_out_keeps_product reserve_in reserve_out amount hi₀ ho₀ hi ho ha =
    let kept = amount * input_kept_per_mille in
    let e = amount_out-eq reserve_in reserve_out amount hi ho ha in
    let (lo, hi') =
      IsFloor-div (kept * reserve_out) (reserve_in * per_mille + kept) (omega arith) in
    rw e (
      let less = share_lt (reserve_in * per_mille) reserve_out kept _ (omega arith) ho₀ lo in
      (
        less,
        kept_product (reserve_in * per_mille) reserve_out kept _ (omega arith) lo,
        omega (arith, hi'),
      ))

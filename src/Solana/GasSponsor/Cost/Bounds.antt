-- ===== src/Solana/GasSponsor/Cost/Bounds.antt =====
-- What the sponsor charges and how it rewrites the reserved transfer.
use trading_aggregators.Prelude.{
  ℕ, ◌+◌, ◌-◌, ◌*◌, ◌^◌, ◌≤◌, ◌<◌, ◌≡◌, ◌↔◌, ap, ◌∙◌, some, arith, get_elem?, set, Option-cases,
  inl, inr,
}
use trading_aggregators.Prelude.Words.{mul_u128-eq_mul, mul_u64_lt, div_ceil}
use trading_aggregators.Prelude.Bytes.{to_le_bytes, overwrite, eq_of_bytes_eq}
use trading_aggregators.Error.{ok}
use trading_aggregators.Solana.Transaction.{Transaction, CompiledInstruction, with_instructions}
use trading_aggregators.Solana.GasSponsor.Cost.{
  SponsorCostPolicy, SolUsdcPrice, max_price_age, new_policy, policy_with_service_fee_usdc, charge,
  transfer_bytes, with_amount, replace_reimbursement,
}

-- What the constructor establishes and every builder keeps: the caps are positive and the service
-- fee lies below the charge's cap.
pub record IsValid (s : SponsorCostPolicy) : Type 0 where
  pub cost_cap : 0 < s.max_cost_lamports
  pub fee_cap : s.service_fee_usdc < s.max_fee_usdc

pub new_policy-IsValid :
    (cost fee : ℕ) {s : SponsorCostPolicy} → new_policy cost fee ≡ ok s → IsValid s
unfolding new_policy
new_policy-IsValid cost fee e = ground arith

pub policy_with_service_fee_usdc-IsValid :
    (s : SponsorCostPolicy) (fee : ℕ) {s' : SponsorCostPolicy}
    → IsValid s
    → policy_with_service_fee_usdc s fee ≡ ok s'
    → IsValid s'
unfolding policy_with_service_fee_usdc
policy_with_service_fee_usdc-IsValid s fee v e = ground arith

-- `x` is `a / b` rounded up.
abbrev pub IsCeil : ℕ → ℕ → ℕ → Type 0
IsCeil x a b = (a ≤ x * b) × (x * b < a + b)

IsCeil-div_ceil : (a : ℕ) → IsCeil (div_ceil a 1_000_000_000) a 1_000_000_000
IsCeil-div_ceil a = ground arith

IsCeil-unique : (x y a : ℕ) → IsCeil x a 1_000_000_000 → IsCeil y a 1_000_000_000 → x ≡ y
IsCeil-unique x y a hx hy = omega arith

-- For `u64` inputs a charge is made exactly when the price is positive and observed at most 30
-- seconds before now, the cost is within its cap, and the charge within its own; it is then the cost
-- in USDC rounded up, plus the service fee.
pub charge_iff :
    (s : SponsorCostPolicy) (cost : ℕ) (price : SolUsdcPrice) (now charged : ℕ)
    → cost < 2 ^ 64
    → price.usdc_units_per_sol < 2 ^ 64
    → s.service_fee_usdc < 2 ^ 64
    → s.max_fee_usdc < 2 ^ 64
    → (charge s cost price now ≡ ok charged) ↔ (
        (0 < price.usdc_units_per_sol)
        × (price.observed_at ≤ now)
        × (now ≤ price.observed_at + max_price_age)
        × (cost ≤ s.max_cost_lamports)
        × (charged ≤ s.max_fee_usdc)
        × (s.service_fee_usdc ≤ charged)
        × IsCeil (charged - s.service_fee_usdc) (cost * price.usdc_units_per_sol) 1_000_000_000)
unfolding charge
charge_iff s cost price now charged hc hp hs hm =
    let exact = mul_u128-eq_mul cost price.usdc_units_per_sol hc hp in
    let product = mul_u64_lt cost price.usdc_units_per_sol hc hp in
    let ceil = IsCeil-div_ceil (cost * price.usdc_units_per_sol) in
    (
      ground arith,
      ground (
        arith,
        IsCeil-unique (charged - s.service_fee_usdc)
            (div_ceil (cost * price.usdc_units_per_sol) 1_000_000_000)
            (cost * price.usdc_units_per_sol),
      ),
    )

with_amount-transfer :
    (tx : Transaction) (index reserved charged : ℕ) (found : CompiledInstruction)
    → found.bytes ≡ transfer_bytes reserved
    → with_amount tx index found charged
      ≡ with_instructions tx
          (set tx.message.instructions index (record found { bytes = transfer_bytes charged }))
unfolding with_amount transfer_bytes
with_amount-transfer tx index reserved charged found same =
    ap
      (λ bytes. with_instructions tx (
        set tx.message.instructions index
          (record found { bytes = overwrite bytes 1 (to_le_bytes 8 charged) })))
      same

-- The transfer of the charge in place of the reserved one.
abbrev pub IsReplaced : Transaction → ℕ → ℕ → ℕ → Transaction → CompiledInstruction → Type 0
IsReplaced tx index reserved charged tx' found =
    (get_elem? tx.message.instructions index ≡ some found)
    × (found.bytes ≡ transfer_bytes reserved)
    × (charged ≤ reserved)
    × (tx'
        ≡ with_instructions tx
            (set tx.message.instructions index (record found { bytes = transfer_bytes charged })))

-- A rewritten transaction had the reserved USDC transfer at the index, the charge is at most the
-- reserved amount, and nothing but that transfer's amount has changed.
pub replace_reimbursement-IsReplaced :
    (tx : Transaction) (index reserved charged : ℕ) {tx' : Transaction}
    → replace_reimbursement tx index reserved charged ≡ ok tx'
    → (found : CompiledInstruction) × IsReplaced tx index reserved charged tx' found
unfolding replace_reimbursement
replace_reimbursement-IsReplaced tx index reserved charged {tx'} e =
    elim (Option-cases (get_elem? tx.message.instructions index)) [
      | inl missing ↦ absurd (ground arith)
      | inr (found, there) ↦
          let same : found.bytes ≡ transfer_bytes reserved =
            eq_of_bytes_eq found.bytes (transfer_bytes reserved) (ground arith) in
          let written : tx' ≡ with_amount tx index found charged = ground arith in
          (
            found,
            (
              there,
              same,
              ground arith,
              written ∙ with_amount-transfer tx index reserved charged found same,
            ),
          )
    ]

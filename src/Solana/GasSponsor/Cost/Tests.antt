-- ===== src/Solana/GasSponsor/Cost/Tests.antt =====
-- A charge at a concrete price, and the transfer that pays it.
use trading_aggregators.Prelude.{◌+◌, ◌-◌, ◌*◌, ◌≤◌, ◌<◌, ◌≡◌, ◌↔◌, refl, [], ◌∷◌, arith}
use trading_aggregators.Error.{ok}
use trading_aggregators.Solana.Transaction.{Transaction, CompiledInstruction, MessageVersion}
use trading_aggregators.Solana.GasSponsor.Cost.{
  SponsorCostPolicy, SolUsdcPrice, max_price_age, charge, replace_reimbursement, with_amount,
  transfer_bytes,
}
use trading_aggregators.Solana.GasSponsor.Cost.Bounds.{
  IsCeil, IsReplaced, charge_iff, replace_reimbursement-IsReplaced,
}

abbrev some_policy : SponsorCostPolicy
some_policy = record {
  max_cost_lamports = 10_000_000;
  max_fee_usdc = 3_000_000;
  service_fee_usdc = 1_000_000;
}

abbrev raised_policy : SponsorCostPolicy
raised_policy = record {
  max_cost_lamports = 20_000_000;
  max_fee_usdc = 5_000_000;
  service_fee_usdc = 1_000_000;
}

abbrev some_price : SolUsdcPrice
some_price = record { usdc_units_per_sol = 150_000_000; observed_at = 1_000 }

abbrev reserved_transfer : CompiledInstruction
reserved_transfer = record { program_id_index = 3; accounts = []; bytes = transfer_bytes 3_000_000 }

abbrev reserving : Transaction
reserving = record {
  signatures = 0 ∷ [];
  message = record {
    version = MessageVersion.v0;
    num_required_signatures = 1;
    static_account_keys = 10 ∷ [];
    instructions = reserved_transfer ∷ [];
    recent_blockhash = 7;
  };
}

charge_iff_example : (charge some_policy 5_000 some_price 2_000 ≡ ok 1_000_750) ↔ (
    (0 < some_price.usdc_units_per_sol)
    × (some_price.observed_at ≤ 2_000)
    × (2_000 ≤ some_price.observed_at + max_price_age)
    × (5_000 ≤ some_policy.max_cost_lamports)
    × (1_000_750 ≤ some_policy.max_fee_usdc)
    × (some_policy.service_fee_usdc ≤ 1_000_750)
    × IsCeil
        (1_000_750 - some_policy.service_fee_usdc)
        (5_000 * some_price.usdc_units_per_sol)
        1_000_000_000)
charge_iff_example =
    charge_iff some_policy 5_000 some_price 2_000 1_000_750 (omega arith) (omega arith)
      (omega arith) (omega arith)

replace_reimbursement-IsReplaced_example :
    (found : CompiledInstruction) × IsReplaced reserving 0 3_000_000 1_000_750
      (with_amount reserving 0 reserved_transfer 1_000_750)
      found
unfolding replace_reimbursement transfer_bytes
replace_reimbursement-IsReplaced_example =
    replace_reimbursement-IsReplaced reserving 0 3_000_000 1_000_750 refl

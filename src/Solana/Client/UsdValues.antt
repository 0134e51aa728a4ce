-- ===== src/Solana/Client/UsdValues.antt =====
-- `src/usd_value.rs` and the value computations of `src/solana/client/usd_value.rs`.
use trading_aggregators.Prelude.{ℕ, ◌&&◌, Option, none, some, if◌then◌else◌}
use trading_aggregators.Floats.{F64, Floats, f_zero, f_hundred}
use trading_aggregators.Solana.Types.{Side, buy, sell, Quote, UsdValue}

pub record PoolPrices : Type 0 where
  pub token : F64
  pub settlement : F64

module _ ⦃f : Floats⦄ where
  -- `UsdValue::new`
  pub new : F64 → F64 → Option UsdValue
  new paid received =
      if (f.is_finite paid && f.lt f_zero paid) && (f.is_finite received && f.le f_zero received)
      then some (record { paid = paid; received = received })
      else none

  pub from_reported : Option F64 → Option F64 → Option UsdValue
  unfolding new
  from_reported (some paid) (some received) = new paid received
  from_reported _ _ = none

  pub loss_percent : UsdValue → F64
  loss_percent v = f.mul (f.div (f.sub v.paid v.received) v.paid) f_hundred

  -- `PoolPrices::usd_value`
  pub usd_value : PoolPrices → Side → Quote → Option UsdValue
  usd_value prices buy q =
      new (f.mul (f.of_u64 q.in_amount) prices.settlement)
        (f.mul (f.of_u64 q.expected_out) prices.token)
  usd_value prices sell q =
      new (f.mul (f.of_u64 q.in_amount) prices.token)
        (f.mul (f.of_u64 q.expected_out) prices.settlement)

  scaled : F64 → ℕ → ℕ → F64
  scaled value charged routed = f.div (f.mul value (f.of_u64 charged)) (f.of_u64 routed)

  pub usd_value_after_fees : Quote → Quote → Option UsdValue
  unfolding scaled
  usd_value_after_fees routed charged = elim routed.usd_value [
    | none ↦ none
    | some reported ↦
        new (scaled reported.paid charged.in_amount routed.in_amount)
          (scaled reported.received charged.expected_out routed.expected_out)
  ]

-- ===== src/Solana/Executor/Signing/Tests.antt =====
-- The signers of a sponsored transaction.
use trading_aggregators.Prelude.{◌≡◌, ◌⊎◌, refl, some, [], All, get_elem?}
use trading_aggregators.Solana.Transaction.{Transaction, MessageVersion}
use trading_aggregators.Solana.GasSponsor.{GasSponsor}
use trading_aggregators.Solana.Samples.{sample_message}
use trading_aggregators.Solana.Executor.Signing.{payer, required_keys, user_signer_index}
use trading_aggregators.Solana.Executor.Signing.Required.{user_signer_index-eq-ok}

abbrev some_sponsor : GasSponsor
some_sponsor = record {
  wallet = 10;
  fee_recipient = 10;
  cost_policy = record {
    max_cost_lamports = 10_000_000;
    max_fee_usdc = 3_000_000;
    service_fee_usdc = 1_000_000;
  };
}

abbrev sponsored_transaction : Transaction
sponsored_transaction = record { signatures = []; message = sample_message MessageVersion.v0 10 77 }

user_signer_index-eq-ok_example :
    (get_elem? (required_keys sponsored_transaction) 1 ≡ some 11)
    × (get_elem? (required_keys sponsored_transaction) 0 ≡ some (payer (some some_sponsor) 11))
    × All (λ k. (k ≡ 11) ⊎ (k ≡ payer (some some_sponsor) 11)) (required_keys sponsored_transaction)
unfolding user_signer_index
user_signer_index-eq-ok_example =
    user_signer_index-eq-ok (some some_sponsor) 11 sponsored_transaction refl

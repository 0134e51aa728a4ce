-- ===== src/Solana/SdkFee/Transfers.antt =====
-- The transfers that collect the fee.
use trading_aggregators.Prelude.{ℕ, ◌<◌, ◌≡◌, List, [], ◌∷◌, ◌++◌, inl, inr, arith}
use trading_aggregators.Error.{ok, Result-cases}
use trading_aggregators.Solana.Keys.{Pubkey, Instruction, token_program, usdc_mint}
use trading_aggregators.Solana.Types.{Trade, PreparedSwap, Settlement, sol, usdc}
use trading_aggregators.Solana.Common.{Platform, ata, create_ata_idempotent, system_transfer}
use trading_aggregators.Solana.SdkFee.{
  SdkFee, quote_after_fee, append_usdc_fee, with_fee_transfer, apply_with_payer,
}

module _ ⦃p : Platform⦄ where
  -- A USDC payment: the recipient's account is made first, and the last instruction is the token
  -- program's checked transfer of the charge from wallet to recipient.
  pub record IsUsdcPayment (before after : List Instruction) (payer wallet recipient : Pubkey)
      (charge : ℕ) : Type 0 where
    pub transfer : Instruction
    pub built :
        p.transfer_checked token_program
          (ata wallet usdc_mint token_program)
          usdc_mint
          (ata recipient usdc_mint token_program)
          wallet
          []
          charge
          6
        ≡ ok transfer
    pub appended :
        after
        ≡ before ++ (create_ata_idempotent payer recipient usdc_mint token_program ∷ transfer ∷ [])

  pub append_usdc_fee-IsUsdcPayment :
      (before : List Instruction) (payer wallet recipient : Pubkey) (charge : ℕ)
      {after : List Instruction}
      → append_usdc_fee before payer wallet recipient charge ≡ ok after
      → IsUsdcPayment before after payer wallet recipient charge
  unfolding append_usdc_fee
  append_usdc_fee-IsUsdcPayment before payer wallet recipient charge e =
      elim (Result-cases (
        p.transfer_checked token_program (ata wallet usdc_mint token_program) usdc_mint
          (ata recipient usdc_mint token_program) wallet [] charge 6)) [
            | inl (transfer, built) ↦ record {
              transfer = transfer;
              built = built;
              appended = ground arith;
            }
            | inr (error, failed) ↦ absurd (ground arith)
          ]

  -- What a collected fee adds to a route in each settlement currency.
  abbrev pub Collects :
      Settlement → Trade → SdkFee → Pubkey → List Instruction → List Instruction → ℕ → Type 0
  Collects sol t fee payer before after charge =
      after ≡ before ++ (system_transfer t.wallet fee.recipient charge ∷ [])
  Collects usdc t fee payer before after charge =
      IsUsdcPayment before after payer t.wallet fee.recipient charge

  with_fee_transfer-Collects :
      (c : Settlement) (fee : SdkFee) (t : Trade) (before : List Instruction) (payer : Pubkey)
      (charge : ℕ) {after : List Instruction}
      → with_fee_transfer fee t c before payer charge ≡ ok after
      → Collects c t fee payer before after charge
  unfolding with_fee_transfer
  with_fee_transfer-Collects sol fee t before payer charge e = ground arith
  with_fee_transfer-Collects usdc fee t before payer charge e =
      append_usdc_fee-IsUsdcPayment before payer t.wallet fee.recipient charge e

  -- The steps of `apply_with_payer`, taken apart.
  apply_with_payer_steps :
      (fee : SdkFee) (t : Trade) (prepared : PreparedSwap) (payer : Pubkey) {after : PreparedSwap}
      → apply_with_payer fee t prepared payer ≡ ok after
      → (quote_after_fee fee t prepared.quote ≡ ok after.quote)
        × (0 < after.quote.application_fee
            → with_fee_transfer fee t t.settlement prepared.instructions payer
                after.quote.application_fee
              ≡ ok after.instructions)
        × (after.quote.application_fee ≡ 0 → after.instructions ≡ prepared.instructions)
        × (after.venue ≡ prepared.venue)
        × (after.format ≡ prepared.format)
  unfolding apply_with_payer
  apply_with_payer_steps fee t prepared payer e =
      (ground arith, ground arith, ground arith, ground arith, ground arith)

  -- A swap that the fee is applied to carries the quote of `quote_after_fee`; its instructions are
  -- the route's, followed by exactly one collection of the quoted application fee in the trade's
  -- currency, or by nothing when that fee is zero; venue and format stay.
  pub apply_with_payer-Collects :
      (fee : SdkFee) (t : Trade) (prepared : PreparedSwap) (payer : Pubkey) {after : PreparedSwap}
      → apply_with_payer fee t prepared payer ≡ ok after
      → (quote_after_fee fee t prepared.quote ≡ ok after.quote)
        × (0 < after.quote.application_fee
            → Collects t.settlement t fee payer prepared.instructions after.instructions
                after.quote.application_fee)
        × (after.quote.application_fee ≡ 0 → after.instructions ≡ prepared.instructions)
        × (after.venue ≡ prepared.venue)
        × (after.format ≡ prepared.format)
  apply_with_payer-Collects fee t prepared payer {after} e =
      let (quoted, sent, unsent, same_venue, same_format) =
        apply_with_payer_steps fee t prepared payer e in
      (
        quoted,
        λ h.
            with_fee_transfer-Collects t.settlement fee t prepared.instructions payer
              after.quote.application_fee (sent h),
        unsent,
        same_venue,
        same_format,
      )

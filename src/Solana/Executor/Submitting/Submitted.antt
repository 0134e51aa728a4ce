-- ===== src/Solana/Executor/Submitting/Submitted.antt =====
-- What becomes of a swap that is submitted.
use trading_aggregators.Prelude.{
  ℕ, ◌≡◌, ◌⊎◌, Option, none, some, List, subst, refl, inl, inr, arith, Option-cases, All, get_elem?,
}
use trading_aggregators.Error.{TradeError, submit as submit_error, Result, ok, err}
use trading_aggregators.Action.{Action, lift, map_err, pure, >>=-eq-ok, ◌>>=◌}
use trading_aggregators.Floats.{Floats}
use trading_aggregators.Solana.Types.{PreparedSwap, LookupTable, Trade, SwapResult, pending}
use trading_aggregators.Solana.Transaction.{Transaction}
use trading_aggregators.Solana.GasSponsor.{GasSponsor}
use trading_aggregators.Solana.GasSponsor.Finalizing.{finalize_fee}
use trading_aggregators.Solana.GasSponsor.Finalizing.Charged.{IsFinal, finalize_fee-IsFinal}
use trading_aggregators.Solana.Chain.{Chain, Compiler, Submitter}
use trading_aggregators.Solana.Executor.Budget.{V1Config, last_compiled_index}
use trading_aggregators.Solana.Executor.Signing.{
  SwapSigners, payer, required_keys, user_signer_index, sign_transaction,
}
use trading_aggregators.Solana.Executor.Signing.Signed.{
  IsFullySigned, sign_transaction-IsFullySigned,
}
use trading_aggregators.Solana.Executor.Signing.Required.{user_signer_index-eq-ok}
use trading_aggregators.Solana.Executor.Build.{build_transaction}
use trading_aggregators.Solana.Executor.Submitting.{
  route_of, submitted, settled, sign_and_submit, submit_swap,
}

-- Only the wallet and the payer are asked to sign, the payer first, and the wallet is asked.
abbrev pub IsExpected : Option GasSponsor → Trade → Transaction → Type 0
IsExpected sponsor t tx =
    ((index : ℕ) × (get_elem? (required_keys tx) index ≡ some t.wallet))
    × (get_elem? (required_keys tx) 0 ≡ some (payer sponsor t.wallet))
    × All (λ k. (k ≡ t.wallet) ⊎ (k ≡ payer sponsor t.wallet)) (required_keys tx)

expected :
    (sponsor : Option GasSponsor) (t : Trade) (tx : Transaction) (index : ℕ)
    → user_signer_index sponsor t.wallet tx ≡ ok index
    → IsExpected sponsor t tx
expected sponsor t tx index e =
    let (place, first, all) = user_signer_index-eq-ok sponsor t.wallet tx e in
    ((index, place), first, all)

module _ {W : Type 0} ⦃chain : Chain W⦄ where
  -- From the world `w` to `w'`: without a sponsor nothing happens, with one the fee is finalized at the
  -- place of the last instruction.
  abbrev pub IsSettled :
      SwapSigners W
      → Option GasSponsor
      → PreparedSwap
      → Transaction
      → W
      → ℕ
      → Transaction
      → W
      → Type 0
  IsSettled signers none prepared tx w fee final w' =
      (fee ≡ prepared.quote.sponsorship_fee) × (final ≡ tx) × (w' ≡ w)
  IsSettled signers (some g) prepared tx w fee final w' =
      (index : ℕ) × (last_compiled_index prepared.instructions prepared.format ≡ some index)
      × IsFinal g.cost_policy signers.price_feed tx index w fee final w'

  settled-IsSettled :
      (signers : SwapSigners W) (g : Option GasSponsor) (prepared : PreparedSwap) (tx : Transaction)
      (w w' : W) (fee : ℕ) (final : Transaction)
      → settled signers g prepared tx w ≡ (ok (fee, final), w')
      → IsSettled signers g prepared tx w fee final w'
  unfolding settled
  settled-IsSettled signers none prepared tx w w' fee final e =
      (ground arith, ground arith, ground arith)
  settled-IsSettled signers (some g) prepared tx w w' fee final e =
      elim (Option-cases (last_compiled_index prepared.instructions prepared.format)) [
        | inl missing ↦ absurd (ground arith)
        | inr (index, there) ↦
            let e' : finalize_fee g.cost_policy signers.price_feed tx index w
                ≡ (ok (fee, final), w') =
              ground arith in
            (index, there, finalize_fee-IsFinal g.cost_policy signers.price_feed tx index w w' e')
      ]

  -- What follows the check of the signers: each step starts in the world that the one before it left.
  abbrev pub IsSigned :
      PreparedSwap → SwapSigners W → Submitter W → Trade → Transaction → W → SwapResult → W → Type 0
  IsSigned prepared signers submitter t tx w₁ result w' =
      (final : Transaction) × (signed : Transaction) × (signature : ℕ) × (w₂ : W) × (w₃ : W)
      × IsSettled signers signers.sponsor prepared tx w₁ result.sponsorship_fee final w₂
      × IsFullySigned signers t.wallet final w₂ signed w₃
      × (submitter.submit signed w₃ ≡ (ok signature, w'))
      × (result ≡ record {
        hash = signature;
        dex = prepared.venue;
        status = pending;
        amount_received = none;
        application_fee = prepared.quote.application_fee;
        sponsorship_fee = result.sponsorship_fee;
      })

  module _ ⦃compiler : Compiler V1Config⦄ ⦃f : Floats⦄ where
    sign_and_submit-IsSigned :
        (prepared : PreparedSwap) (signers : SwapSigners W) (submitter : Submitter W) (t : Trade)
        (tx : Transaction) (w₁ w' : W) {result : SwapResult}
        → sign_and_submit prepared signers submitter t tx w₁ ≡ (ok result, w')
        → IsSigned prepared signers submitter t tx w₁ result w'
    unfolding sign_and_submit
    sign_and_submit-IsSigned prepared signers submitter t tx w₁ w' {result} e =
        let (final, w₂, e₃, k₃) =
          >>=-eq-ok (settled signers signers.sponsor prepared tx)
            (λ final. sign_transaction signers t.wallet final.1 >>= λ signed.
              map_err (λ _. submit_error "submit") (submitter.submit signed) >>= λ signature.
              pure (submitted prepared final.0 signature))
            w₁ w' e in
        let (signed, w₃, e₄, k₄) =
          >>=-eq-ok (sign_transaction signers t.wallet final.1)
            (λ signed.
              map_err (λ _. submit_error "submit") (submitter.submit signed) >>= λ signature.
              pure (submitted prepared final.0 signature))
            w₂ w' k₃ in
        let (signature, w₄, e₅, k₅) =
          >>=-eq-ok (map_err (λ _. submit_error "submit") (submitter.submit signed))
            (λ signature. pure (submitted prepared final.0 signature)) w₃ w' k₄ in
        let charged : final.0 ≡ result.sponsorship_fee = ground arith in
        (
          final.1,
          signed,
          signature,
          w₂,
          w₃,
          subst (λ c. IsSettled signers signers.sponsor prepared tx w₁ c final.1 w₂) charged
              (settled-IsSettled signers signers.sponsor prepared tx w₁ w₂ final.0 final.1 e₃),
          sign_transaction-IsFullySigned signers t.wallet final.1 w₂ w₃ e₄,
          ground arith,
          ground arith,
        )

    -- What `submit_swap` may come to from a world. Where the check refuses the signers of the built
    -- transaction, that is the error, and the world is the one that building left: nobody was asked to
    -- sign or to submit.
    abbrev pub IsSubmission :
        PreparedSwap
        → SwapSigners W
        → Submitter W
        → Trade
        → ℕ
        → List LookupTable
        → W
        → Result TradeError SwapResult × W
        → Type 0
    IsSubmission prepared signers submitter t fee tables w (ok result, w') =
        (tx : Transaction) × (w₁ : W) × (build_transaction (payer signers.sponsor t.wallet)
            (route_of prepared tables) fee submitter.default_tip w
          ≡ (ok tx, w₁))
        × IsExpected signers.sponsor t tx
        × IsSigned prepared signers submitter t tx w₁ result w'
    IsSubmission prepared signers submitter t fee tables w (err x, w') =
        (build_transaction (payer signers.sponsor t.wallet) (route_of prepared tables) fee
            submitter.default_tip w
          ≡ (err x, w'))
        ⊎ ((tx : Transaction) × (w₁ : W) × (build_transaction (payer signers.sponsor t.wallet)
                (route_of prepared tables) fee submitter.default_tip w
              ≡ (ok tx, w₁))
            × (((user_signer_index signers.sponsor t.wallet tx ≡ err x) × (w' ≡ w₁))
                ⊎ IsExpected signers.sponsor t tx))

    module _ (prepared : PreparedSwap) (signers : SwapSigners W) (submitter : Submitter W)
        (t : Trade) (fee : ℕ) (tables : List LookupTable) (w : W) where
      abbrev built : Action W TradeError Transaction
      built =
          build_transaction (payer signers.sponsor t.wallet) (route_of prepared tables) fee
            submitter.default_tip

      answered :
          (tx : Transaction) (w₁ : W) (index : ℕ) (answer : Result TradeError SwapResult × W)
          → built w ≡ (ok tx, w₁)
          → user_signer_index signers.sponsor t.wallet tx ≡ ok index
          → sign_and_submit prepared signers submitter t tx w₁ ≡ answer
          → IsSubmission prepared signers submitter t fee tables w answer
      answered tx w₁ index (ok result, w') e₁ e₂ e = (
        tx,
        w₁,
        e₁,
        expected signers.sponsor t tx index e₂,
        sign_and_submit-IsSigned prepared signers submitter t tx w₁ w' e,
      )
      answered tx w₁ index (err x, w') e₁ e₂ e =
          inr (tx, w₁, e₁, inr (expected signers.sponsor t tx index e₂))

      checked :
          (tx : Transaction) (w₁ : W) (signer : Result TradeError ℕ)
          → built w ≡ (ok tx, w₁)
          → user_signer_index signers.sponsor t.wallet tx ≡ signer
          → IsSubmission prepared signers submitter t fee tables w
              ((lift signer >>= λ _. sign_and_submit prepared signers submitter t tx) w₁)
      checked tx w₁ (ok index) e₁ e₂ = answered tx w₁ index _ e₁ e₂ refl
      checked tx w₁ (err x) e₁ e₂ = inr (tx, w₁, e₁, inl (e₂, refl))

      begun :
          (first : Result TradeError Transaction × W)
          → built w ≡ first
          → IsSubmission prepared signers submitter t fee tables w (
              ((λ (_ : W). first) >>= λ tx.
              lift (user_signer_index signers.sponsor t.wallet tx) >>= λ _.
              sign_and_submit prepared signers submitter t tx)
                w)
      begun (ok tx, w₁) e = checked tx w₁ (user_signer_index signers.sponsor t.wallet tx) e refl
      begun (err x, w₁) e = inl e

      -- Whatever the node, the signers and the submitter do, a submission succeeds only if the
      -- transaction that is built from the route asks just the wallet and the payer to sign, and then in
      -- this order: the sponsor's fee is finalized, if there is a sponsor; the wallet signs that
      -- transaction at its place, and a sponsor behind it at the first; it is submitted; and the result
      -- reports the settled fee and `pending`. If it fails, then while building, or at the check of the
      -- signers with nothing done after building, or behind a check that was passed.
      pub submit_swap-IsSubmission :
          IsSubmission prepared signers submitter t fee tables w
            (submit_swap prepared signers submitter t fee tables w)
      unfolding submit_swap
      submit_swap-IsSubmission = begun (built w) refl

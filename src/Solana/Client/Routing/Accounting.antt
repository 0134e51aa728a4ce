-- ===== src/Solana/Client/Routing/Accounting.antt =====
-- Where the money goes: amounts in, fees and outputs of an accepted candidate.
use trading_aggregators.Prelude.{
  ℕ, ◌+◌, ◌^◌, ◌≤◌, ◌<◌, ◌≡◌, ap, Bool-cases, Bool, false, Option, none, some, is_some, is_empty,
  if◌then◌else◌, arith, inl, inr,
}
use trading_aggregators.Error.{ok, Result-cases}
use trading_aggregators.Floats.{Floats}
use trading_aggregators.Solana.Types.{is_buy, Trade, Quote, PreparedSwap}
use trading_aggregators.Solana.Common.{Platform}
use trading_aggregators.Solana.SdkFee.{SdkFee, amount}
use trading_aggregators.Solana.SdkFee.Charges.{
  IsValid, trade_after_fee_split, quote_after_fee_split,
}
use trading_aggregators.Solana.SdkFee.Transfers.{apply_with_payer-Collects}
use trading_aggregators.Solana.ProviderFee.{ProviderFee}
use trading_aggregators.Solana.GasSponsor.{GasSponsor}
use trading_aggregators.Solana.GasSponsor.Charges.{reserve_fee_split, apply_to_swap_split}
use trading_aggregators.Solana.Client.UsdValues.{PoolPrices}
use trading_aggregators.Solana.Client.Routing.{
  Client, sponsor_for, transfer_fee, after_fee, reserved, routed_trade, validate_candidate, applied,
  sponsored, with_input, append_fees, accept_candidate, fee_payer,
}

-- A configured fee is as its constructor leaves it.
abbrev pub IsValidFee : Option SdkFee → Type 0
IsValidFee none = Unit
IsValidFee (some fee) = IsValid fee

-- What the SDK's own transfer takes from a basis, and the sponsor's ceiling.
abbrev pub transfer_of : Option SdkFee → ℕ → ℕ
transfer_of none basis = 0
transfer_of (some fee) basis = amount fee basis

abbrev pub ceiling_of : Option GasSponsor → ℕ
ceiling_of none = 0
ceiling_of (some g) = g.cost_policy.max_fee_usdc

after_fee_split :
    (fee : Option SdkFee) (t : Trade) {t' : Trade}
    → IsValidFee fee
    → t.amount < 2 ^ 64
    → after_fee fee t ≡ ok t'
    → (t'.amount + (if is_buy t.side then transfer_of fee t.amount else 0) ≡ t.amount)
      × (t'.side ≡ t.side)
unfolding after_fee
after_fee_split none t v h e = ground arith
after_fee_split (some fee) t v h e = ground (arith, trade_after_fee_split fee t v h e)

reserved_split :
    (g : Option GasSponsor) (t : Trade) {t' : Trade}
    → reserved g t ≡ ok t'
    → (t'.amount + (if is_buy t.side then ceiling_of g else 0) ≡ t.amount)
unfolding reserved
reserved_split none t e = ground arith
reserved_split (some g) t e = ground (arith, reserve_fee_split g t e)

pub routed_trade_split :
    (c : Client) (t : Trade) (fee : Option SdkFee) {routed : Trade}
    → IsValidFee fee
    → t.amount < 2 ^ 64
    → routed_trade c t fee ≡ ok routed
    → routed.amount
        + (if is_buy t.side then transfer_of fee t.amount + ceiling_of (sponsor_for c t) else 0)
      ≡ t.amount
unfolding routed_trade
routed_trade_split c t fee {routed} v h e = elim (Result-cases (after_fee fee t)) [
  | inl (between, e₁) ↦
      let (kept, side) = after_fee_split fee t v h e₁ in
      let left = reserved_split (sponsor_for c t) between {t' = routed} (ground arith) in
      let same = ap is_buy side in
      elim (Bool-cases (is_buy t.side)) [ inl buys ↦ ground arith | inr sells ↦ ground arith ]
  | inr (failed, e₁) ↦ absurd (ground arith)
]

-- What a candidate has to be.
record IsCandidate (routed : Trade) (candidate : PreparedSwap) (by_provider : Bool) : Type 0 where
  in_amount : candidate.quote.in_amount ≡ routed.amount
  unsponsored : candidate.quote.sponsorship_fee ≡ 0
  free : by_provider ≡ false → candidate.quote.application_fee ≡ 0
  least : 0 < candidate.quote.min_out
  ordered : candidate.quote.min_out ≤ candidate.quote.expected_out
  routable : is_empty candidate.instructions ≡ false

validate_candidate-IsCandidate :
    (routed : Trade) (candidate : PreparedSwap) (by_provider : Bool)
    → validate_candidate routed candidate by_provider ≡ ok tt
    → IsCandidate routed candidate by_provider
unfolding validate_candidate
validate_candidate-IsCandidate routed candidate by_provider e = record {
  in_amount = ground arith;
  unsponsored = ground arith;
  free = λ h. ground arith;
  least = ground arith;
  ordered = ground arith;
  routable = ground arith;
}

module _ ⦃p : Platform⦄ where
  -- What one charging step does to a quote: a sale's outputs give up `taken`.
  record IsCharged (t : Trade) (before after : Quote) (taken : ℕ) : Type 0 where
    expected : after.expected_out + (if is_buy t.side then 0 else taken) ≡ before.expected_out
    minimum : after.min_out + (if is_buy t.side then 0 else taken) ≡ before.min_out
    positive : 0 < before.min_out → 0 < after.min_out

  applied-IsCharged :
      (fee : Option SdkFee) (t : Trade) (prepared : PreparedSwap) (payer : _) {after : PreparedSwap}
      → IsValidFee fee
      → prepared.quote.expected_out < 2 ^ 64
      → applied fee t prepared payer ≡ ok after
      → IsCharged t prepared.quote after.quote (transfer_of fee prepared.quote.expected_out)
        × (after.quote.sponsorship_fee ≡ prepared.quote.sponsorship_fee)
        × (after.quote.application_fee ≡ (
            if is_some fee
            then transfer_of fee (if is_buy t.side then t.amount else prepared.quote.expected_out)
            else prepared.quote.application_fee))
  unfolding applied
  applied-IsCharged none t prepared payer v h e = (
    record { expected = ground arith; minimum = ground arith; positive = λ k. ground arith },
    ground arith,
    ground arith,
  )
  applied-IsCharged (some fee) t prepared payer v h e =
      let quoted = (apply_with_payer-Collects fee t prepared payer e).0 in
      let split = quote_after_fee_split fee t prepared.quote v h quoted in
      (
        record { expected = ground arith; minimum = ground arith; positive = λ k. ground arith },
        ground arith,
        ground arith,
      )

  sponsored-IsCharged :
      (g : Option GasSponsor) (t : Trade) (prepared : PreparedSwap) {after : PreparedSwap}
      → sponsored g t (with_input t prepared) ≡ ok after
      → IsCharged t prepared.quote after.quote (ceiling_of g)
        × (after.quote.in_amount ≡ t.amount)
        × (after.quote.application_fee ≡ prepared.quote.application_fee)
        × (after.quote.sponsorship_fee
            ≡ (if is_some g then ceiling_of g else prepared.quote.sponsorship_fee))
  unfolding sponsored
  sponsored-IsCharged none t prepared e = (
    record { expected = ground arith; minimum = ground arith; positive = λ k. ground arith },
    ground arith,
    ground arith,
    ground arith,
  )
  sponsored-IsCharged (some g) t prepared e =
      let split = apply_to_swap_split g t (with_input t prepared) e in
      (
        record { expected = ground arith; minimum = ground arith; positive = λ k. ground arith },
        ground arith,
        ground arith,
        ground arith,
      )

  -- The quote after every charge is the final one, but for the value that is shown.
  abbrev IsKept : Quote → Quote → Type 0
  IsKept after final =
      (final.in_amount ≡ after.in_amount)
      × (final.expected_out ≡ after.expected_out)
      × (final.min_out ≡ after.min_out)
      × (final.application_fee ≡ after.application_fee)
      × (final.sponsorship_fee ≡ after.sponsorship_fee)

  -- How an accepted swap comes from its candidate: what the candidate spends and charges itself, what
  -- is charged on top of it, and the outputs that are left.
  abbrev pub IsAccounted :
      Client → Trade → Trade → Option ProviderFee → PreparedSwap → PreparedSwap → Type 0
  IsAccounted c t routed collected candidate final =
      let fee = transfer_fee c collected in
      let ceiling = ceiling_of (sponsor_for c t) in
      let taken =
        if is_buy t.side then 0 else transfer_of fee candidate.quote.expected_out + ceiling in
      (candidate.quote.in_amount ≡ routed.amount)
      × (candidate.quote.in_amount
            + (if is_buy t.side then transfer_of fee t.amount + ceiling else 0)
          ≡ t.amount)
      × ((if is_some collected then 0 else candidate.quote.application_fee) ≡ 0)
      × (is_empty candidate.instructions ≡ false)
      × (final.quote.in_amount ≡ t.amount)
      × (final.quote.expected_out + taken ≡ candidate.quote.expected_out)
      × (final.quote.min_out + taken ≡ candidate.quote.min_out)
      × (0 < final.quote.min_out)
      × (final.quote.min_out ≤ final.quote.expected_out)
      × (final.quote.sponsorship_fee ≡ ceiling)
      × (final.quote.application_fee ≡ (
          if is_some collected
          then candidate.quote.application_fee
          else transfer_of fee (if is_buy t.side then t.amount else candidate.quote.expected_out)))

  -- An accepted candidate, seen from outside, for `u64` amounts and a fee as its constructor leaves it.
  -- The candidate has instructions, spends just the routed amount and charges nothing itself but a
  -- provider fee; on a buy, what it spends, the SDK's transfer fee and the sponsor's ceiling make up the
  -- trade's amount. The accepted swap names that whole amount as its input; on a sale, its outputs and
  -- both fees make up the candidate's outputs; its minimum output is positive and at most the expected
  -- one; the sponsorship fee is the ceiling of a sponsored trade and zero on any other; and the
  -- application fee is the candidate's under a provider fee, else what the transfer takes, of the amount
  -- on a buy and of the candidate's output on a sale.
  pub accept_candidate_accounts :
      ⦃f : Floats⦄ (c : Client) (t routed : Trade) (collected : Option ProviderFee)
      (prices : Option PoolPrices) (candidate : PreparedSwap) {final : PreparedSwap}
      → IsValidFee (transfer_fee c collected)
      → t.amount < 2 ^ 64
      → candidate.quote.expected_out < 2 ^ 64
      → routed_trade c t (transfer_fee c collected) ≡ ok routed
      → accept_candidate c t routed collected prices candidate ≡ ok final
      → IsAccounted c t routed collected candidate final
  unfolding accept_candidate append_fees
  accept_candidate_accounts c t routed collected prices candidate {final} v h hq r e =
      let sound =
        validate_candidate-IsCandidate routed candidate (is_some collected) (ground arith) in
      let split = routed_trade_split c t (transfer_fee c collected) v h r in
      elim (Result-cases
        (applied (transfer_fee c collected) t candidate (fee_payer (sponsor_for c t) t))) [
          | inl (between, e₁) ↦
              let (first, f₁, f₂) =
                applied-IsCharged (transfer_fee c collected) t candidate
                  (fee_payer (sponsor_for c t) t) v hq e₁ in
              elim (Result-cases (sponsored (sponsor_for c t) t (with_input t between))) [
                | inl (after, e₂) ↦
                    let (second, g₁, g₂, g₃) = sponsored-IsCharged (sponsor_for c t) t between e₂ in
                    let kept : IsKept after.quote final.quote = ground arith in
                    let ordered : final.quote.min_out ≤ final.quote.expected_out = ground arith in
                    let spends = sound.in_amount in
                    let application : final.quote.application_fee ≡ (
                        if is_some collected
                        then candidate.quote.application_fee
                        else transfer_of (transfer_fee c collected)
                            (if is_buy t.side then t.amount else candidate.quote.expected_out)) =
                      ground arith in
                    (
                      spends,
                      ground arith,
                      ground arith,
                      sound.routable,
                      ground arith,
                      ground arith,
                      ground arith,
                      ground arith,
                      ordered,
                      ground arith,
                      application,
                    )
                | inr (failed, e₂) ↦ absurd (ground arith)
              ]
          | inr (failed, e₁) ↦ absurd (ground arith)
        ]

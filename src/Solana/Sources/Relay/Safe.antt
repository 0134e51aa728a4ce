-- ===== src/Solana/Sources/Relay/Safe.antt =====
-- What a swap that Relay's adapter prepares promises: `src/solana/sources/relay/`.
use trading_aggregators.Prelude.{
  ℕ, String, ◌≡◌, ◌^◌, ◌<◌, sym, subst, Bool, true, false, not, ◌||◌, Option, none, some, List, [],
  ◌∷◌, ◌++◌, All, if◌then◌else◌, All-append, any, is_empty, inl, inr, arith,
}
use trading_aggregators.Error.{
  TradeError, Result, ok, err, raise_if, ok_or, >>=-eq-ok, Result-cases,
}
use trading_aggregators.Prelude.Bytes.{codes}
use trading_aggregators.Floats.{Floats}
use trading_aggregators.Text.{KeyText, parse_u64, parse_u64_lt}
use trading_aggregators.Relay.{venue, FloatText, QuoteResponse, Details, Swap, Fees, matches}
use trading_aggregators.Solana.Keys.{Pubkey, Instruction}
use trading_aggregators.Solana.Types.{Trade, Quote, PreparedSwap}
use trading_aggregators.Solana.Common.{Platform}
use trading_aggregators.Solana.ProviderFee.{ProviderFee, validate_amount}
use trading_aggregators.Solana.Sources
use trading_aggregators.Solana.Sources.{
  ApiInstruction, validated_quote, decode_hex, retain_compute_budget,
}
use trading_aggregators.Solana.Sources.Accepted.{IsAllowed, validated_quote-IsAllowed}
use trading_aggregators.Solana.Sources.Signers.{
  HasSigners, AllOk, decode_hex-HasSigners, move_rent_to_sponsor-HasSigners,
  instructions-HasSigners,
}
use trading_aggregators.Solana.Sources.Relay.{
  other_chain, is_v1, TransactionData, rent_moved, decode_loop, instructions, signs, swap, quote_of,
  swap_data, parse_amount, string_equality,
}
use trading_aggregators.Solana.Sources.Relay.AppFee.{apply, charged_amount, is_elsewhere}
use trading_aggregators.Solana.Sources.Relay.Response.{prepare_response}

any-append :
    (test : Instruction → Bool) (xs ys : List Instruction)
    → any test xs ≡ true
    → any test (xs ++ ys) ≡ true
any-append test [] ys h = absurd (ground arith)
any-append test (x ∷ xs) ys h = ground (arith, any-append test xs ys)

module _ ⦃text : KeyText⦄ ⦃p : Platform⦄ where
  rent_moved-HasSigners :
      (ix : Instruction) (wallet : Pubkey) (payer : Option Pubkey) {moved : Instruction}
      → HasSigners wallet payer ix
      → rent_moved ix wallet payer ≡ ok moved
      → HasSigners wallet payer moved
  rent_moved-HasSigners ix wallet none {moved} h e =
      let same : ix ≡ moved = ground arith in subst (HasSigners wallet none) same h
  rent_moved-HasSigners ix wallet (some payer) h e =
      move_rent_to_sponsor-HasSigners venue ix wallet payer h e

  kept_or :
      (P : Instruction → Type 0) (keep : Bool) (ix : Instruction) (rest : List Instruction)
      → P ix
      → All P rest
      → All P (if keep then ix ∷ rest else rest)
  kept_or P true ix rest h hs = (h, hs)
  kept_or P false ix rest h hs = hs

  decode_loop-HasSigners :
      (wallet : Pubkey) (payer : Option Pubkey) (apis : List ApiInstruction)
      {ixs : List Instruction}
      → decode_loop wallet payer apis ≡ ok ixs
      → All (HasSigners wallet payer) ixs
  unfolding decode_loop
  decode_loop-HasSigners wallet payer [] {ixs} e = subst (AllOk (HasSigners wallet payer)) e tt
  decode_loop-HasSigners wallet payer (api ∷ apis) {ixs} e =
      let (decoded, e₁, e₁') = >>=-eq-ok (decode_hex api venue wallet payer) _ e in
      let (moved, e₂, e₂') = >>=-eq-ok (rent_moved decoded wallet payer) _ e₁' in
      let (keep, e₃, e₃') = >>=-eq-ok (retain_compute_budget venue moved) _ e₂' in
      let (rest, e₄, e₄') = >>=-eq-ok (decode_loop wallet payer apis) _ e₃' in
      subst (AllOk (HasSigners wallet payer)) e₄' (
        kept_or (HasSigners wallet payer) keep moved rest
          (rent_moved-HasSigners decoded wallet payer
            (decode_hex-HasSigners api venue wallet payer e₁) e₂)
          (decode_loop-HasSigners wallet payer apis e₄))

  -- The route of an accepted response.
  abbrev pub IsRoute : Trade → Option Pubkey → List Instruction → Type 0
  IsRoute t payer route =
      All (HasSigners t.wallet payer) route × (any (signs t.wallet) route ≡ true)

  abbrev IsRouteResult : Trade → Option Pubkey → Result TradeError (List Instruction) → Type 0
  IsRouteResult t payer (ok route) = IsRoute t payer route
  IsRouteResult t payer (err e) = Unit

  instructions-IsRoute :
      (found : TransactionData) (t : Trade) (payer : Option Pubkey) {route : List Instruction}
      → instructions found t payer ≡ ok route
      → IsRoute t payer route
  unfolding instructions
  instructions-IsRoute found t payer {route} e =
      let (checked, c₁, e₁) = >>=-eq-ok (raise_if (other_chain found.chain_id) _) _ e in
      let (checked', c₂, e₂) =
        >>=-eq-ok (raise_if (not (is_v1 found.transaction_version)) _) _ e₁ in
      let (decoded, e₃, e₃') = >>=-eq-ok (decode_loop t.wallet payer found.instructions) _ e₂ in
      let (checked'', c₄, e₄) =
        >>=-eq-ok (raise_if (is_empty decoded || not (any (signs t.wallet) decoded)) _) _ e₃' in
      let (configured, e₅, e₅') =
        >>=-eq-ok (Sources.instructions found.transaction_config venue) _ e₄ in
      let wallet_signs : any (signs t.wallet) decoded ≡ true = ground arith in
      subst (IsRouteResult t payer) e₅' (
        All-append (HasSigners t.wallet payer) decoded configured
            (decode_loop-HasSigners t.wallet payer found.instructions e₃)
            (instructions-HasSigners t.wallet payer found.transaction_config venue e₅),
        any-append (signs t.wallet) decoded configured wallet_signs,
      )

  -- The quote's amounts are ones that the trade allows.
  abbrev pub HasAllowedAmounts : Trade → Quote → Type 0
  HasAllowedAmounts t q = IsAllowed t q.in_amount q.expected_out q.min_out

  abbrev HasAllowedResult : Trade → Result TradeError Quote → Type 0
  HasAllowedResult t (ok q) = HasAllowedAmounts t q
  HasAllowedResult t (err e) = Unit

  parse_amount_lt : (value : String) (n : ℕ) → parse_amount value ≡ ok n → n < 2 ^ 64
  parse_amount_lt value n e = elim (Result-cases (parse_u64 (codes value))) [
    | inl (m, e₁) ↦ let small = parse_u64_lt (codes value) m e₁ in ground arith
    | inr (x, e₁) ↦ absurd (ground arith)
  ]

  module _ ⦃floats : FloatText⦄ ⦃f : Floats⦄ where
    quote_of-HasAllowedAmounts :
        (details : Details String) (requested : Swap String) (t : Trade) {q : Quote}
        → quote_of details requested t ≡ ok q
        → HasAllowedAmounts t q
    unfolding quote_of
    quote_of-HasAllowedAmounts details requested t {q} e =
        let (checked, c₁, e₁) = >>=-eq-ok (raise_if (not (matches details requested)) _) _ e in
        let (input, r₁, e₂) = >>=-eq-ok (parse_amount details.currency_in.amount) _ e₁ in
        let (expected, r₂, e₃) = >>=-eq-ok (parse_amount details.currency_out.amount) _ e₂ in
        let (minimum, r₃, e₄) = >>=-eq-ok (parse_amount details.currency_out.minimum_amount) _ e₃ in
        let (quote, r₄, e₅) = >>=-eq-ok (validated_quote venue t input expected minimum) _ e₄ in
        let (v, allowed, same) =
          (validated_quote-IsAllowed venue t input expected minimum quote
              (parse_amount_lt details.currency_out.amount expected r₂)).0
            r₄ in
        subst (HasAllowedResult t) e₅ (subst (HasAllowedAmounts t) (sym same) allowed)

    apply-HasAllowedAmounts :
        (fees : Fees String) (t : Trade) (fee : Option ProviderFee) (quoted : Quote) {q : Quote}
        → HasAllowedAmounts t quoted
        → apply fees t fee quoted ≡ ok q
        → HasAllowedAmounts t q
    unfolding apply
    apply-HasAllowedAmounts fees t none quoted {q} h e =
        let (amount, r₁, e₁) = >>=-eq-ok (charged_amount fees.app) _ e in
        let same : quoted ≡ q = ground arith in subst (HasAllowedAmounts t) same h
    apply-HasAllowedAmounts fees t (some fee) quoted {q} h e =
        let (amount, r₁, e₁) = >>=-eq-ok (charged_amount fees.app) _ e in
        let (app, r₂, e₂) = >>=-eq-ok (ok_or fees.app _) _ e₁ in
        let (checked, c₃, e₃) = >>=-eq-ok (raise_if (is_elsewhere app t) _) _ e₂ in
        let (valid, c₄, e₄) = >>=-eq-ok (validate_amount fee quoted amount fee.fee.bps) _ e₃ in
        subst (HasAllowedResult t) e₄ h

    -- A swap that is prepared from Relay's answer asks nobody but the wallet, and in a sponsored
    -- trade the sponsor, to sign any of its instructions; the wallet signs one; and its quote has the
    -- trade's input and a minimum output within the trade's slippage.
    pub prepare_response-IsRoute :
        (response : QuoteResponse String TransactionData) (t : Trade) (payer : Option Pubkey)
        (fee : Option ProviderFee) (prepared : PreparedSwap)
        → prepare_response response t payer fee ≡ ok prepared
        → IsRoute t payer prepared.instructions × HasAllowedAmounts t prepared.quote
    unfolding prepare_response
    prepare_response-IsRoute response t payer fee prepared e =
        let (quoted, r₁, e₁) = >>=-eq-ok (quote_of response.details (swap t) t) _ e in
        let (quote, r₂, e₂) = >>=-eq-ok (apply response.fees t fee quoted) _ e₁ in
        let (found, r₃, e₃) = >>=-eq-ok (swap_data response.steps) _ e₂ in
        let (route, r₄, e₄) = >>=-eq-ok (instructions found t payer) _ e₃ in
        let same₁ : route ≡ prepared.instructions = ground arith in
        let same₂ : quote ≡ prepared.quote = ground arith in
        (
          subst (IsRoute t payer) same₁ (instructions-IsRoute found t payer r₄),
          subst (HasAllowedAmounts t) same₂ (
              apply-HasAllowedAmounts response.fees t fee quoted
                (quote_of-HasAllowedAmounts response.details (swap t) t r₁) r₂),
        )

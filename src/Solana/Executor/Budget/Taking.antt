-- ===== src/Solana/Executor/Budget/Taking.antt =====
-- Taking the budget out of a route.
use native.Mathlib.Nat.{mul-le-mul_right}
use trading_aggregators.Prelude.{
  ℕ, ◌+◌, ◌*◌, ◌/◌, ◌^◌, ◌≤◌, ◌<◌, ◌≡◌, subst, ◌∙◌, false, not, Option, none, some, List, [], ◌∷◌,
  filter, unwrap_or, inl, inr, length, is_some, is_empty, drop, refl, Bool-cases, ap, arith,
}
use trading_aggregators.Prelude.Words.{as_u64, mul_u128-eq_mul}
use trading_aggregators.Solana.Common.Bounds.{IsFloor-div}
use trading_aggregators.Error.{ok, Result-cases, >>=-eq-ok}
use trading_aggregators.Prelude.Bytes.{from_le_bytes}
use trading_aggregators.Floats.{Floats}
use trading_aggregators.Solana.Keys.{Instruction}
use trading_aggregators.Solana.Types.{TransactionFormat, v0, v1}
use trading_aggregators.Solana.Executor.Budget.{
  cu_limit_max, tail_of, is_budget, is_compute_unit_limit, requested_limit, limit_loop,
  take_compute_unit_limit, take_budget, budget_value, requested_slot, budget_loop, RequestedBudget,
  only_limit, chosen_limit, unit_price, micro_lamports_per_lamport,
}

-- A limit, if there is one, is from 1 to 1.4 million.
abbrev pub InRange : Option ℕ → Type 0
InRange none = Unit
InRange (some limit) = (1 ≤ limit) × (limit ≤ cu_limit_max)

nil_of_test : {A : Type 0} (xs : List A) → not (is_empty xs) ≡ false → xs ≡ []
nil_of_test [] h = refl
nil_of_test (x ∷ xs) h = absurd (ground arith)

requested_limit-InRange :
    (requested : Option ℕ) (ix : Instruction) {limit : ℕ}
    → requested_limit requested ix ≡ ok limit
    → InRange (some limit) × (is_some requested ≡ false)
unfolding requested_limit
requested_limit-InRange requested ix e = ground arith

-- The limit that is set lies between 1 and 1.4 million and is at least the requested one, whatever
-- the simulation reports and the floating-point headroom yields.
pub chosen_limit_bounds :
    ⦃f : Floats⦄
    → (simulated requested : Option ℕ) → InRange requested
    → (1 ≤ chosen_limit simulated requested)
      × (chosen_limit simulated requested ≤ cu_limit_max)
      × (unwrap_or requested 0 ≤ chosen_limit simulated requested)
unfolding chosen_limit
chosen_limit_bounds simulated requested h = ground arith

pub unit_price-eq :
    (fee limit : ℕ)
    → fee < 2 ^ 64
    → unit_price fee limit ≡ as_u64 (fee * micro_lamports_per_lamport / limit)
unfolding unit_price
unit_price-eq fee limit h =
    ap (λ (t : ℕ). as_u64 (t / limit))
      (mul_u128-eq_mul fee micro_lamports_per_lamport h (omega arith))

-- A V0 transaction never pays more than the priority fee that was asked for: price times limit, in
-- millionths of a lamport, is at most the fee, and where the price is a `u64` it is the greatest such
-- price.
pub unit_price_spends :
    (fee limit : ℕ)
    → fee < 2 ^ 64
    → 1 ≤ limit
    → (unit_price fee limit * limit ≤ fee * micro_lamports_per_lamport)
      × (fee * micro_lamports_per_lamport / limit < 2 ^ 64
          → fee * micro_lamports_per_lamport < unit_price fee limit * limit + limit)
unit_price_spends fee limit h pos =
    let (lo, hi) = IsFloor-div (fee * micro_lamports_per_lamport) limit pos in
    let e = unit_price-eq fee limit h in
    let le : unit_price fee limit ≤ fee * micro_lamports_per_lamport / limit = omega arith in
    (
      omega (arith, lo, mul-le-mul_right limit le),
      λ small.
          let same : unit_price fee limit ≡ fee * micro_lamports_per_lamport / limit =
            omega arith in
          omega (arith, hi, ap (λ (t : ℕ). t * limit) same),
    )

abbrev pub optional : Option ℕ → ℕ
optional none = 0
optional (some n) = 1

limit_loop-InRange :
    (requested : Option ℕ) (ixs : List Instruction) (limit : Option ℕ)
    → InRange requested
    → limit_loop requested ixs ≡ ok limit
    → InRange limit × (length ixs + optional requested ≡ optional limit)
unfolding limit_loop
limit_loop-InRange none [] none h e = ground arith
limit_loop-InRange none [] (some l) h e = ground arith
limit_loop-InRange (some r) [] none h e = ground arith
limit_loop-InRange (some r) [] (some l) h e = ground (arith, h)
limit_loop-InRange requested (ix ∷ ixs) limit h e =
    elim (Result-cases (requested_limit requested ix)) [
      | inl (l, e₁) ↦
          let (range, fresh) = requested_limit-InRange requested ix e₁ in
          ground (
            arith,
            limit_loop-InRange (some l) ixs limit range,
            e₁,
            fresh,
            Bool-cases (is_some requested),
          )
      | inr (er, e₁) ↦ ground (arith, e₁)
    ]

-- What a route's requests for a compute-unit limit say: nothing where there is none, and a limit where
-- one request, with no account, has these four little-endian bytes behind its tag.
abbrev pub Asks : List Instruction → Option ℕ → Type 0
Asks requests none = requests ≡ []
Asks requests (some limit) =
    (ix : Instruction) × (requests ≡ ix ∷ [])
    × (length (drop 1 ix.bytes) ≡ 4)
    × (from_le_bytes (drop 1 ix.bytes) ≡ limit)
    × (ix.accounts ≡ [])

tail_of-drop : (bs : List ℕ) → tail_of bs ≡ drop 1 bs
tail_of-drop [] = refl
tail_of-drop (b ∷ bs) = refl

requested_limit-Asks :
    (ix : Instruction) {limit : ℕ}
    → requested_limit none ix ≡ ok limit
    → Asks (ix ∷ []) (some limit)
unfolding requested_limit
requested_limit-Asks ix e =
    let same = tail_of-drop ix.bytes in
    (ix, refl, ground (arith, same), ground (arith, same), nil_of_test ix.accounts (ground arith))

limit_loop-Asks :
    (requests : List Instruction) (limit : Option ℕ)
    → limit_loop none requests ≡ ok limit
    → Asks requests limit
unfolding limit_loop
limit_loop-Asks [] none e = refl
limit_loop-Asks [] (some l) e = absurd (ground arith)
limit_loop-Asks (ix ∷ []) none e = absurd (ground arith)
limit_loop-Asks (ix ∷ []) (some l) e = requested_limit-Asks ix (ground arith)
limit_loop-Asks (ix ∷ ix' ∷ rest) limit e = elim (Result-cases (requested_limit none ix)) [
  | inl (l, e₁) ↦ elim (Result-cases (requested_limit (some l) ix')) [
    | inl (l', e₂) ↦ absurd (ground (arith, requested_limit-InRange (some l) ix' e₂))
    | inr (failed, e₂) ↦ absurd (ground arith)
  ]
  | inr (failed, e₁) ↦ absurd (ground arith)
]

-- A route is accepted only if it asks for a compute-unit limit at most once and the limit is from 1 to
-- 1.4 million; the result is that limit, read from the request's bytes, and just the requests for it are
-- gone from the route.
pub take_compute_unit_limit_once :
    (instructions : List Instruction) (limit : Option ℕ) (left : List Instruction)
    → take_compute_unit_limit instructions ≡ ok (limit, left)
    → InRange limit
      × (length (filter is_compute_unit_limit instructions) ≡ optional limit)
      × Asks (filter is_compute_unit_limit instructions) limit
      × (left ≡ filter (λ ix. not (is_compute_unit_limit ix)) instructions)
unfolding take_compute_unit_limit
take_compute_unit_limit_once instructions limit left e =
    let requests = filter is_compute_unit_limit instructions in
    let (limit', e₁, e₂) = >>=-eq-ok (limit_loop none requests) _ e in
    let read : limit_loop none requests ≡ ok limit = ground arith in
    let (range, count) = limit_loop-InRange none requests limit tt read in
    (range, omega (arith, count), limit_loop-Asks requests limit read, ground arith)

requested_slot-limit :
    (budget : RequestedBudget) (tag value : ℕ) (filled : RequestedBudget)
    → requested_slot budget tag value ≡ ok filled
    → filled.compute_unit_limit ≡ budget.compute_unit_limit
unfolding requested_slot
requested_slot-limit budget tag value filled e = ground arith

pub budget_loop-limit :
    (ixs : List Instruction) (budget filled : RequestedBudget)
    → budget_loop budget ixs ≡ ok filled
    → filled.compute_unit_limit ≡ budget.compute_unit_limit
unfolding budget_loop
budget_loop-limit [] budget filled e = ground arith
budget_loop-limit (ix ∷ ixs) budget filled e = elim (Result-cases (budget_value ix)) [
  | inl (tagged, there) ↦ elim (Result-cases (requested_slot budget tagged.0 tagged.1)) [
    | inl (next, slot) ↦
        let more : budget_loop next ixs ≡ ok filled = ground arith in
        budget_loop-limit ixs next filled more
        ∙ requested_slot-limit budget tagged.0 tagged.1 next slot
    | inr (failed, stuck) ↦ absurd (ground arith)
  ]
  | inr (failed, stuck) ↦ absurd (ground arith)
]

-- What `RequestedBudget::take` returns asks for a limit in range, if for any.
pub take_budget-InRange :
    (instructions : List Instruction) (format : TransactionFormat) (budget : RequestedBudget)
    (left : List Instruction)
    → take_budget instructions format ≡ ok (budget, left)
    → InRange budget.compute_unit_limit
unfolding take_budget
take_budget-InRange instructions v0 budget left e =
    elim (Result-cases (take_compute_unit_limit instructions)) [
      | inl ((limit, rest), there) ↦
          let (range, count, asks, same) =
            take_compute_unit_limit_once instructions limit rest there in
          let same_limit : limit ≡ budget.compute_unit_limit = ground arith in
          subst InRange same_limit range
      | inr (failed, there) ↦ absurd (ground arith)
    ]
take_budget-InRange instructions v1 budget left e =
    elim (Result-cases (take_compute_unit_limit instructions)) [
      | inl ((limit, rest), there) ↦
          let (range, count, asks, same) =
            take_compute_unit_limit_once instructions limit rest there in
          elim (Result-cases (budget_loop (only_limit limit) (filter is_budget rest))) [
            | inl (filled, full) ↦
                let same_limit : limit ≡ budget.compute_unit_limit = ground (
                  arith,
                  budget_loop-limit (filter is_budget rest) (only_limit limit) filled full,
                ) in
                subst InRange same_limit range
            | inr (failed, stuck) ↦ absurd (ground arith)
          ]
      | inr (failed, there) ↦ absurd (ground arith)
    ]

-- ===== src/Evm/Relay/Transactions/Decoded.antt =====
-- `decode` of `src/evm/sources/relay/transactions.rs` lets through approvals of the input token and one
-- swap.
use trading_aggregators.Prelude.{
  ℕ, suc, ◌≤◌, ◌≡◌, inl, inr, refl, subst, Bool, true, false, not, ◌||◌, List, [], ◌∷◌, ◌++◌, All,
  length, sym, ap, ◌∙◌, ◌^◌, ◌<◌, Bool-cases, ltb, is_empty, ◌&&◌, if◌then◌else◌, arith,
}
use trading_aggregators.Error.{TradeError, Result, ok, err, ok_or, raise_if, ◌>>=◌, >>=-eq-ok}
use trading_aggregators.Relay.{Step, StepItem}
use trading_aggregators.Evm.Types.{Trade, Transaction}
use trading_aggregators.Evm.Network.{Network}
use trading_aggregators.Evm.Relay.{AmountText}
use trading_aggregators.Text.{string_eq}
use trading_aggregators.Evm.Relay.Transactions.Safe.{
  IsOwn, IsSwap, IsApproval, IsStep, raise_if-eq-ok, validated-IsStep,
}
use trading_aggregators.Evm.Relay.Transactions.{
  decode_item, inconsistent, consistent, is_misnamed, is_unsupported, ApiTransaction,
  decode_transaction, decode_items, decode_step, decode, is_foreign, quantity, optional_quantity,
}

last_two : (a d e : Bool) → (a || d || e) ≡ false → (d ≡ false) × (e ≡ false)
last_two a d e h = ground arith

length-nonempty : {A : Type 0} (xs : List A) → is_empty xs ≡ false → 1 ≤ length xs
length-nonempty [] h = absurd (ground arith)
length-nonempty (x ∷ xs) h = omega arith

le_of_test : (n k : ℕ) → ltb k n ≡ false → n ≤ k
le_of_test n k h = ground arith

one_item : (swap : Bool) → swap ≡ true → (n : ℕ) → n ≤ (if swap then 1 else 2) → 1 ≤ n → n ≡ 1
one_item true is n few some_item = omega arith
one_item false is n few some_item = absurd (ground arith)

consistent-eq : (tx : Transaction) {found : Transaction} → consistent tx ≡ ok found → tx ≡ found
unfolding consistent
consistent-eq tx {found} e = elim (Bool-cases (inconsistent tx)) [
  | inl bad ↦ absurd (ground arith)
  | inr good ↦ ground arith
]

module _ ⦃text : AmountText⦄ ⦃network : Network⦄ where
  own_of :
      (api : ApiTransaction) (t : Trade)
      → is_foreign api t ≡ false
      → (api.chain_id ≡ network.chain_id) × (api.from ≡ t.wallet)
  own_of api t h = ground arith

  decode_transaction-IsOwn :
      (api : ApiTransaction) (t : Trade) {tx : Transaction}
      → decode_transaction api t ≡ ok tx
      → IsOwn t tx
  unfolding decode_transaction
  decode_transaction-IsOwn api t {tx} e =
      let (c₁, h₁, e₁) = >>=-eq-ok (raise_if (is_foreign api t) _) _ e in
      let (value, h₂, e₂) = >>=-eq-ok (quantity api.value) _ e₁ in
      let (gas, h₃, e₃) = >>=-eq-ok (optional_quantity api.gas) _ e₂ in
      let (gas_price, h₄, e₄) = >>=-eq-ok (optional_quantity api.gas_price) _ e₃ in
      let (max_fee, h₅, e₅) = >>=-eq-ok (optional_quantity api.max_fee_per_gas) _ e₄ in
      let (tip, h₆, e₆) = >>=-eq-ok (optional_quantity api.max_priority_fee_per_gas) _ e₅ in
      subst (IsOwn t) (consistent-eq _ e₆) (own_of api t (raise_if-eq-ok _ _ h₁))

  decode_item-IsStep :
      (swap : Bool) (item : StepItem ApiTransaction) (t : Trade) {tx : Transaction}
      → t.amount < 2 ^ 256
      → decode_item swap item t ≡ ok tx
      → IsStep swap t tx
  unfolding decode_item
  decode_item-IsStep swap item t fits e =
      let (c₁, h₁, e₁) = >>=-eq-ok (raise_if (not (string_eq item.status "incomplete")) _) _ e in
      let (api, h₂, e₂) = >>=-eq-ok (ok_or item.content _) _ e₁ in
      let (decoded, h₃, e₃) = >>=-eq-ok (decode_transaction api t) _ e₂ in
      validated-IsStep swap decoded t fits (decode_transaction-IsOwn api t h₃) e₃

  -- The transactions of a step, of which a swap's holds no fewer than items.
  abbrev AreSteps : Bool → Trade → ℕ → List Transaction → Type 0
  AreSteps swap t count txs =
      All (IsStep swap t) txs × (length txs ≤ count) × (swap ≡ true → length txs ≡ count)

  abbrev AreStepsResult : Bool → Trade → ℕ → Result TradeError (List Transaction) → Type 0
  AreStepsResult swap t count (ok txs) = AreSteps swap t count txs
  AreStepsResult swap t count (err e) = Unit

  joined :
      (swap : Bool) (t : Trade) (count : ℕ) (item : Result TradeError Transaction)
      (rest : Result TradeError (List Transaction))
      → ((tx : Transaction) → item ≡ ok tx → IsStep swap t tx)
      → AreStepsResult swap t count rest
      → AreStepsResult swap t (suc count) (item >>= λ tx. rest >>= λ txs. ok (tx ∷ txs))
  joined swap t count (ok tx) (ok txs) h (all, le, eq) =
      ((h tx refl, all), omega arith, λ e. ap suc (eq e))
  joined swap t count (ok tx) (err e) h hs = tt
  joined swap t count (err e) rest h hs = tt

  skipped :
      (swap : Bool) (t : Trade) (count : ℕ) (rest : Result TradeError (List Transaction))
      → swap ≡ false
      → AreStepsResult swap t count rest
      → AreStepsResult swap t (suc count) rest
  skipped swap t count (ok txs) isnt (all, le, eq) = (all, omega arith, λ e. absurd (ground arith))
  skipped swap t count (err e) isnt h = tt

  either :
      (swap : Bool) (t : Trade) (count : ℕ) (skip : Bool)
      (rest decoded : Result TradeError (List Transaction))
      → AreStepsResult swap t count rest
      → AreStepsResult swap t (suc count) decoded
      → AreStepsResult swap t (suc count) (if not swap && skip then rest else decoded)
  either true t count skip rest decoded h h' = h'
  either false t count true rest decoded h h' = skipped false t count rest refl h
  either false t count false rest decoded h h' = h'

  decode_items-AreSteps :
      (swap : Bool) (items : List (StepItem ApiTransaction)) (t : Trade)
      → t.amount < 2 ^ 256
      → AreStepsResult swap t (length items) (decode_items swap items t)
  unfolding decode_items
  decode_items-AreSteps swap [] t fits = (tt, omega arith, λ e. refl)
  decode_items-AreSteps swap (item ∷ items) t fits =
      let rest = decode_items-AreSteps swap items t fits in
      either swap t (length items) (string_eq item.status "complete") (decode_items swap items t) _
        rest
        (joined swap t (length items) (decode_item swap item t) (decode_items swap items t)
          (λ tx e. decode_item-IsStep swap item t fits e) rest)

  counted :
      (swap : Bool) (step : Step ApiTransaction)
      → is_unsupported swap step ≡ false
      → (1 ≤ length step.items) × (length step.items ≤ (if swap then 1 else 2))
  counted swap step h =
      let (filled, few) = last_two (is_misnamed swap step) (is_empty step.items) _ h in
      (length-nonempty step.items filled, le_of_test (length step.items) _ few)

  decode_step-AreSteps :
      (swap : Bool) (step : Step ApiTransaction) (t : Trade) {txs : List Transaction}
      → t.amount < 2 ^ 256
      → decode_step swap step t ≡ ok txs
      → All (IsStep swap t) txs
        × (length txs ≤ (if swap then 1 else 2))
        × (swap ≡ true → length txs ≡ 1)
  unfolding decode_step
  decode_step-AreSteps swap step t {txs} fits e =
      let (c₁, h₁, e₁) = >>=-eq-ok (raise_if (is_unsupported swap step) _) _ e in
      let (some_item, few) = counted swap step (raise_if-eq-ok _ _ h₁) in
      let (all, le, eq) =
        subst (AreStepsResult swap t (length step.items)) e₁
          (decode_items-AreSteps swap step.items t fits) in
      (all, omega arith, λ is. eq is ∙ one_item swap is (length step.items) few some_item)

  -- The approvals and the swap behind them.
  abbrev pub AreRoute : Trade → List Transaction → Type 0
  AreRoute t txs =
      (approvals : List Transaction) × (swap : Transaction) × (txs ≡ approvals ++ (swap ∷ []))
      × All (IsApproval t) approvals
      × (length approvals ≤ 2)
      × IsSwap t swap

  sole_transaction :
      (t : Trade) (txs : List Transaction)
      → All (IsStep true t) txs
      → length txs ≡ 1
      → (swap : Transaction) × (txs ≡ swap ∷ []) × IsSwap t swap
  sole_transaction t [] all h = absurd (omega arith)
  sole_transaction t (tx ∷ []) all h = (tx, refl, all.0)
  sole_transaction t (tx ∷ tx' ∷ txs) all h = absurd (omega arith)

  -- Whatever Relay answers, what is decoded for signing is at most two approvals and then one swap, all
  -- on this chain and from the trading wallet, for a trade whose amount fits 256 bits: an approval goes
  -- to the trade's input token, which is not the native currency, pays nothing, and is a call of
  -- `approve` that lets only Relay's contracts spend, and nothing or just the trade's amount; the swap goes to Relay's contracts and pays
  -- just the trade's native amount.
  pub decode-AreRoute :
      (steps : List (Step ApiTransaction)) (t : Trade) {txs : List Transaction}
      → t.amount < 2 ^ 256
      → decode steps t ≡ ok txs
      → AreRoute t txs
  unfolding decode
  decode-AreRoute [] t fits e = absurd (ground arith)
  decode-AreRoute (step ∷ []) t {txs} fits e =
      let (all, le, eq) = decode_step-AreSteps true step t fits e in
      let (swap, same, is) = sole_transaction t txs all (eq refl) in
      ([], swap, same, tt, omega arith, is)
  decode-AreRoute (approval ∷ step ∷ []) t {txs} fits e =
      let (approvals, e₁, e₁') = >>=-eq-ok (decode_step false approval t) _ e in
      let (swaps, e₂, e₂') = >>=-eq-ok (decode_step true step t) _ e₁' in
      let (all, le, eq) = decode_step-AreSteps false approval t fits e₁ in
      let (all', le', eq') = decode_step-AreSteps true step t fits e₂ in
      let (swap, same, is) = sole_transaction t swaps all' (eq' refl) in
      let joined_up : approvals ++ swaps ≡ txs = ground arith in
      (approvals, swap, sym joined_up ∙ ap (λ zs. approvals ++ zs) same, all, le, is)
  decode-AreRoute (a ∷ b ∷ c ∷ steps) t fits e = absurd (ground arith)

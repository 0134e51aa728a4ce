-- ===== src/Evm/Relay/Transactions/Safe.antt =====
-- What the transactions that `src/evm/sources/relay/transactions.rs` lets through may do.
use trading_aggregators.Prelude.{
  ℕ, ◌≡◌, ◌⊎◌, inl, inr, refl, subst, Bool, true, false, ◌++◌, length, length-take, length-drop,
  take-append_le, drop-append_le, drop-length, take-length, drop-take, ap, ◌∙◌, ◌+◌, ◌^◌, ◌<◌, take,
  drop, ◌==◌, if◌then◌else◌, arith, [], ◌∷◌, replicate, length-append, take-take,
}
use trading_aggregators.Error.{TradeError, Result, ok, err, raise_if, >>=-eq-ok}
use trading_aggregators.Prelude.Bytes.{
  to_be_bytes, from_be_bytes, overwrite, length-to_be_bytes, from_be_bytes-to_be_bytes, bytes_eq,
  eq_of_bytes_eq,
}
use trading_aggregators.Evm.Types.{Amount, Bytes, is_native, address_of, Trade, Transaction}
use trading_aggregators.Evm.Network.{Network}
use trading_aggregators.Evm.Relay.Transactions.{
  is_relay_contract, native_value, validate_swap, spender_of, allowance_of, validate_approval,
  validated, is_no_approval, is_unexpected, approve_selector, padding,
}

-- Where the allowance is replaced, it is read as the new one, and the spender stays.
allowance_of-overwrite :
    (input : Bytes) (amount : Amount)
    → amount < 2 ^ 256
    → length input ≡ 68
    → allowance_of (overwrite input 36 (to_be_bytes 32 amount)) ≡ amount
allowance_of-overwrite input amount fits h =
    let head = take 36 input in
    let word = to_be_bytes 32 amount in
    let tail = drop (36 + length word) input in
    let size = length-take 36 input (omega arith) in
    let wide = length-to_be_bytes 32 amount in
    let e₁ : drop 36 (head ++ (word ++ tail)) ≡ word ++ tail =
      drop-append_le 36 head (word ++ tail) (omega arith)
      ∙ ap (λ (zs : Bytes). zs ++ (word ++ tail)) (drop-length 36 head size) in
    let e₂ : take 32 (word ++ tail) ≡ word =
      take-append_le 32 word tail (omega arith) ∙ take-length 32 word wide in
    ap (λ (zs : Bytes). from_be_bytes (take 32 zs)) e₁
    ∙ (ap from_be_bytes e₂ ∙ from_be_bytes-to_be_bytes 32 amount (omega arith))

spender_of-overwrite :
    (input : Bytes) (amount : Amount)
    → length input ≡ 68
    → spender_of (overwrite input 36 (to_be_bytes 32 amount)) ≡ spender_of input
spender_of-overwrite input amount h =
    let head = take 36 input in
    let rest = to_be_bytes 32 amount ++ drop (36 + length (to_be_bytes 32 amount)) input in
    let size = length-take 36 input (omega arith) in
    let e₁ = drop-take 16 20 36 input (omega arith) in
    let short = length-take 20 (drop 16 input) (omega (arith, length-drop 16 input)) in
    let e₂ : take 20 (drop 16 (head ++ rest)) ≡ take 20 (drop 16 input) =
      ap (λ (zs : Bytes). take 20 zs) (drop-append_le 16 head rest (omega arith))
      ∙ (ap (λ (zs : Bytes). take 20 (zs ++ rest)) e₁
          ∙ (take-append_le 20 (take 20 (drop 16 input)) rest (omega arith)
              ∙ take-length 20 (take 20 (drop 16 input)) short)) in
    ap from_be_bytes e₂

-- The selector of `approve(address,uint256)`, an address padded to a word, and an amount.
abbrev pub IsApproveCall : Bytes → Type 0
IsApproveCall input =
    (length input ≡ 68)
    × (take 4 input ≡ 0x09 ∷ 0x5e ∷ 0xa7 ∷ 0xb3 ∷ [])
    × (take 12 (drop 4 input) ≡ replicate 12 0)

-- Only the bytes behind the first 36 change.
overwrite-IsApproveCall :
    (input : Bytes) (amount : Amount)
    → IsApproveCall input
    → IsApproveCall (overwrite input 36 (to_be_bytes 32 amount))
overwrite-IsApproveCall input amount (size, selector, zeros) =
    let word = to_be_bytes 32 amount in
    let wide = length-to_be_bytes 32 amount in
    let head = take 36 input in
    let tail = drop (36 + length word) input in
    let kept = length-take 36 input (omega arith) in
    let rest = length-drop (36 + length word) input in
    let whole : length (head ++ (word ++ tail)) ≡ 68 =
      length-append head (word ++ tail)
      ∙ omega (arith, length-append word tail, kept, rest, wide, size) in
    (
      whole,
      take-append_le 4 head (word ++ tail) (omega arith)
          ∙ (take-take 4 36 input (omega arith) ∙ selector),
      ap (λ (zs : Bytes). take 12 zs) (drop-append_le 4 head (word ++ tail) (omega arith))
          ∙ (take-append_le 12 (drop 4 head) (word ++ tail) (omega (arith, length-drop 4 head))
              ∙ (ap (λ (zs : Bytes). take 12 zs) (drop-take 4 32 36 input (omega arith))
                  ∙ (take-take 12 32 (drop 4 input) (omega arith) ∙ zeros))),
    )

pub raise_if-eq-ok :
    (bad : Bool) (x : TradeError) {u : Unit {0}} → raise_if bad x ≡ ok u → bad ≡ false
raise_if-eq-ok bad x e = ground arith

eq_of_test : (a b : ℕ) → (a == b) ≡ true → a ≡ b
eq_of_test a b h = ground arith

module _ ⦃network : Network⦄ where
  -- The transaction is the trading wallet's, on this chain.
  abbrev pub IsOwn : Trade → Transaction → Type 0
  IsOwn t tx = (tx.chain_id ≡ network.chain_id) × (tx.from ≡ t.wallet)

  -- A swap goes to one of Relay's contracts and pays just the native amount of the trade.
  abbrev pub IsSwap : Trade → Transaction → Type 0
  IsSwap t tx =
      IsOwn t tx
      × ((tx.to ≡ network.router) ⊎ (tx.to ≡ network.approval_proxy))
      × (tx.value ≡ native_value t)

  -- An approval goes to the input token, which is not the native currency, and pays nothing. Its
  -- calldata is a call of `approve` with two words, and lets one of Relay's contracts spend nothing or
  -- just the trade's amount.
  abbrev pub IsApproval : Trade → Transaction → Type 0
  IsApproval t tx =
      IsOwn t tx
      × (is_native t.input ≡ false)
      × (tx.to ≡ address_of t.input)
      × (tx.value ≡ 0)
      × IsApproveCall tx.input
      × (is_relay_contract (spender_of tx.input) ≡ true)
      × ((allowance_of tx.input ≡ 0) ⊎ (allowance_of tx.input ≡ t.amount))

  abbrev pub IsStep : Bool → Trade → Transaction → Type 0
  IsStep true t tx = IsSwap t tx
  IsStep false t tx = IsApproval t tx

  validate_swap-IsSwap :
      (tx : Transaction) (t : Trade) → IsOwn t tx → validate_swap tx t ≡ ok tt → IsSwap t tx
  unfolding validate_swap
  validate_swap-IsSwap tx t own e = ground arith

  approves :
      (tx : Transaction) (t : Trade)
      → is_no_approval tx t ≡ false
      → (is_native t.input ≡ false)
        × (tx.to ≡ address_of t.input)
        × (tx.value ≡ 0)
        × IsApproveCall tx.input
  approves tx t h =
      let selector : bytes_eq (take 4 tx.input) approve_selector ≡ true = ground arith in
      let zeros : bytes_eq (take 12 (drop 4 tx.input)) padding ≡ true = ground arith in
      (
        ground arith,
        ground arith,
        ground arith,
        (
          ground arith,
          eq_of_bytes_eq (take 4 tx.input) approve_selector selector,
          eq_of_bytes_eq (take 12 (drop 4 tx.input)) padding zeros,
        ),
      )

  expected :
      (input : Bytes) (amount : Amount)
      → is_unexpected input amount ≡ false
      → is_relay_contract (spender_of input) ≡ true
  expected input amount h = ground arith

  bounded-IsApproval :
      (tx : Transaction) (t : Trade)
      → t.amount < 2 ^ 256
      → IsOwn t tx
      → is_no_approval tx t ≡ false
      → is_unexpected tx.input t.amount ≡ false
      → (b : Bool) → (allowance_of tx.input == 0) ≡ b
      → IsApproval t
          (if b then tx else record tx { input = overwrite tx.input 36 (to_be_bytes 32 t.amount) })
  bounded-IsApproval tx t fits own h₁ h₂ b e =
      let (n, a, v, call) = approves tx t h₁ in
      let (l, selector, zeros) = call in
      let spends = expected tx.input t.amount h₂ in
      elim b
          as (λ b.
            (allowance_of tx.input == 0) ≡ b
            → IsApproval t (
                if b
                then tx
                else record tx { input = overwrite tx.input 36 (to_be_bytes 32 t.amount) })) [
                  | true ↦ λ e. (own, n, a, v, call, spends, inl (eq_of_test _ _ e))
                  | false ↦ λ e. (
                    own,
                    n,
                    a,
                    v,
                    overwrite-IsApproveCall tx.input t.amount call,
                    ap is_relay_contract (spender_of-overwrite tx.input t.amount l) ∙ spends,
                    inr (allowance_of-overwrite tx.input t.amount fits l),
                  )
                ]
        e

  abbrev IsApprovalResult : Trade → Result TradeError Transaction → Type 0
  IsApprovalResult t (ok tx) = IsApproval t tx
  IsApprovalResult t (err e) = Unit

  validate_approval-IsApproval :
      (tx : Transaction) (t : Trade) {checked : Transaction}
      → t.amount < 2 ^ 256
      → IsOwn t tx
      → validate_approval tx t ≡ ok checked
      → IsApproval t checked
  unfolding validate_approval
  validate_approval-IsApproval tx t {checked} fits own e =
      let (c₁, h₁, e₁) = >>=-eq-ok (raise_if (is_no_approval tx t) _) _ e in
      let (c₂, h₂, e₂) = >>=-eq-ok (raise_if (is_unexpected tx.input t.amount) _) _ e₁ in
      subst (IsApprovalResult t) e₂
        (bounded-IsApproval tx t fits own (raise_if-eq-ok _ _ h₁) (raise_if-eq-ok _ _ h₂) _ refl)

  pub validated-IsStep :
      (swap : Bool) (tx : Transaction) (t : Trade) {checked : Transaction}
      → t.amount < 2 ^ 256
      → IsOwn t tx
      → validated swap tx t ≡ ok checked
      → IsStep swap t checked
  unfolding validated
  validated-IsStep true tx t {checked} fits own e =
      let (u, h, e₁) = >>=-eq-ok (validate_swap tx t) _ e in
      let same : tx ≡ checked = ground arith in
      subst (IsSwap t) same (validate_swap-IsSwap tx t own h)
  validated-IsStep false tx t fits own e = validate_approval-IsApproval tx t fits own e

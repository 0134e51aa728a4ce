-- ===== src/Solana/Sources/Signers.antt =====
-- Who a decoded route may ask to sign: `ApiInstruction::decode` and `move_rent_to_sponsor` of
-- `src/solana/sources/mod.rs`.
use trading_aggregators.Prelude.{
  ℕ, zero, suc, String, ◌≡◌, refl, subst, ◌⊎◌, inl, inr, true, not, Option, none, some, List, [],
  ◌∷◌, All, All-append, set, Bool-cases, arith,
}
use trading_aggregators.Prelude.Bytes.{codes}
use trading_aggregators.Error.{
  decode, raise_if, Result, map_err, ok, err, ◌>>=◌, Result-cases, >>=-eq-ok,
}
use trading_aggregators.Text.{KeyText, collect}
use trading_aggregators.Solana.Keys.{Pubkey, AccountMeta, Instruction, writable, request_heap_frame}
use trading_aggregators.Solana.Common.{Platform, set_compute_unit_limit}
use trading_aggregators.Solana.Sources.{
  ApiAccount, ApiInstruction, TransactionConfig, instructions, heap_instructions, budget, listed,
  is_unsupported, is_payer, decode_account, decode_with, decode_base64, decode_hex, is_hex,
  parse_key,
}
use trading_aggregators.Solana.Sources.Rent.{payer_place, with_rent_payer, move_rent_to_sponsor}

-- An account that is to sign is the wallet or the payer.
abbrev pub MaySign : Pubkey → Option Pubkey → AccountMeta → Type 0
MaySign wallet payer account =
    account.is_signer ≡ true → (account.pubkey ≡ wallet) ⊎ (is_payer account.pubkey payer ≡ true)

abbrev pub HasSigners : Pubkey → Option Pubkey → Instruction → Type 0
HasSigners wallet payer ix = All (MaySign wallet payer) ix.accounts

-- What holds of the elements of a list, if there is one.
abbrev pub AllOk : {E B : Type 0} → (B → Type 0) → Result E (List B) → Type 0
AllOk P (ok ys) = All P ys
AllOk P (err e) = Unit

join :
    {E B : Type 0} (P : B → Type 0) (r : Result E B) (rs : Result E (List B))
    → ((y : B) → r ≡ ok y → P y)
    → AllOk P rs
    → AllOk P (r >>= λ y. rs >>= λ ys. ok (y ∷ ys))
join P (ok y) (ok ys) h hs = (h y refl, hs)
join P (ok y) (err e) h hs = tt
join P (err e) rs h hs = tt

collect-AllOk :
    {E A B : Type 0} (P : B → Type 0) (f : A → Result E B)
    → ((x : A) (y : B) → f x ≡ ok y → P y)
    → (xs : List A) → AllOk P (collect f xs)
collect-AllOk P f each [] = tt
collect-AllOk P f each (x ∷ xs) = join P (f x) (collect f xs) (each x) (collect-AllOk P f each xs)

pub collect-All :
    {E A B : Type 0} (P : B → Type 0) (f : A → Result E B)
    → ((x : A) (y : B) → f x ≡ ok y → P y)
    → (xs : List A) {ys : List B} → collect f xs ≡ ok ys
    → All P ys
collect-All P f each xs {ys} e = subst (AllOk P) e (collect-AllOk P f each xs)

set-All :
    {A : Type 0} (P : A → Type 0) (xs : List A) (i : ℕ) (v : A)
    → All P xs
    → P v
    → All P (set xs i v)
set-All P [] i v h hv = tt
set-All P (x ∷ xs) zero v h hv = (hv, h.1)
set-All P (x ∷ xs) (suc i) v h hv = (h.0, set-All P xs i v h.1 hv)

module _ ⦃text : KeyText⦄ where
  decode_account-MaySign :
      (venue : String) (wallet : Pubkey) (payer : Option Pubkey) (api : ApiAccount)
      (account : AccountMeta)
      → decode_account venue wallet payer api ≡ ok account
      → MaySign wallet payer account
  unfolding decode_account
  decode_account-MaySign venue wallet payer api account e signs =
      elim (Result-cases (text.parse_key api.pubkey)) [
        | inl (key, e₁) ↦ elim (Bool-cases (is_payer key payer)) [
          | inl is ↦ ground arith
          | inr isnt ↦ ground arith
        ]
        | inr (x, e₁) ↦ absurd (ground arith)
      ]

  pub decode_with-HasSigners :
      (ix : ApiInstruction) (venue : String) (wallet : Pubkey) (payer : Option Pubkey)
      (bytes : List ℕ) {decoded : Instruction}
      → decode_with ix venue wallet payer bytes ≡ ok decoded
      → HasSigners wallet payer decoded
  unfolding decode_with
  decode_with-HasSigners ix venue wallet payer bytes {decoded} e =
      let (accounts, e₁, e₂) =
        >>=-eq-ok (collect (decode_account venue wallet payer) ix.accounts) _ e in
      let all =
        collect-All (MaySign wallet payer) (decode_account venue wallet payer)
          (decode_account-MaySign venue wallet payer) ix.accounts e₁ in
      let (program_id, e₃, e₄) = >>=-eq-ok (parse_key venue ix.program_id) _ e₂ in
      let same : accounts ≡ decoded.accounts = ground arith in
      subst (All (MaySign wallet payer)) same all

  pub decode_base64-HasSigners :
      (ix : ApiInstruction) (venue : String) (wallet : Pubkey) (payer : Option Pubkey)
      {decoded : Instruction}
      → decode_base64 ix venue wallet payer ≡ ok decoded
      → HasSigners wallet payer decoded
  unfolding decode_base64
  decode_base64-HasSigners ix venue wallet payer {decoded} e =
      let (bytes, e₁, e₂) =
        >>=-eq-ok (map_err (decode venue) (text.decode_base64 ix.payload)) _ e in
      decode_with-HasSigners ix venue wallet payer bytes e₂

  pub decode_hex-HasSigners :
      (ix : ApiInstruction) (venue : String) (wallet : Pubkey) (payer : Option Pubkey)
      {decoded : Instruction}
      → decode_hex ix venue wallet payer ≡ ok decoded
      → HasSigners wallet payer decoded
  unfolding decode_hex
  decode_hex-HasSigners ix venue wallet payer {decoded} e =
      let (checked, e₁, e₂) =
        >>=-eq-ok
          (raise_if (not (is_hex (codes ix.payload))) (decode venue "invalid hex instruction data"))
          _ e in
      decode_with-HasSigners ix venue wallet payer _ e₂

module _ ⦃p : Platform⦄ where
  rent_accounts :
      (venue : String) (ix : Instruction) (wallet sponsor : Pubkey) (paid : Instruction)
      → with_rent_payer venue ix wallet sponsor ≡ ok paid
      → (ix.accounts ≡ paid.accounts)
        ⊎ (set ix.accounts payer_place (writable sponsor true) ≡ paid.accounts)
  unfolding with_rent_payer
  rent_accounts venue ix wallet sponsor paid e = ground arith

  pub move_rent_to_sponsor-HasSigners :
      (venue : String) (ix : Instruction) (wallet sponsor : Pubkey) {moved : Instruction}
      → HasSigners wallet (some sponsor) ix
      → move_rent_to_sponsor venue ix wallet sponsor ≡ ok moved
      → HasSigners wallet (some sponsor) moved
  unfolding move_rent_to_sponsor
  move_rent_to_sponsor-HasSigners venue ix wallet sponsor {moved} h e =
      let (paid, e₁, e₂) = >>=-eq-ok (with_rent_payer venue ix wallet sponsor) _ e in
      let same : paid ≡ moved = ground arith in
      subst (HasSigners wallet (some sponsor)) same
        (elim (rent_accounts venue ix wallet sponsor paid e₁) [
          | inl unmoved ↦ subst (All (MaySign wallet (some sponsor))) unmoved h
          | inr replaced ↦ subst (All (MaySign wallet (some sponsor))) replaced (
              set-All (MaySign wallet (some sponsor)) ix.accounts payer_place _ h
                (λ signs. inr (ground arith)))
        ])

listed-All :
    (P : Instruction → Type 0) (o : Option ℕ) (build : ℕ → Instruction)
    → ((n : ℕ) → P (build n))
    → All P (listed o build)
listed-All P none build each = tt
listed-All P (some n) build each = (each n, tt)

heap-All :
    (P : Instruction → Type 0) (venue : String) (heap : Option ℕ) {ixs : List Instruction}
    → ((n : ℕ) → P (budget request_heap_frame n))
    → heap_instructions venue heap ≡ ok ixs
    → All P ixs
unfolding heap_instructions
heap-All P venue none {ixs} each e = subst (AllOk P) e tt
heap-All P venue (some n) {ixs} each e =
    let same : budget request_heap_frame n ∷ [] ≡ ixs = ground arith in
    subst (All P) same (each n, tt)

-- Budget instructions name no account, so nobody signs them.
pub instructions-HasSigners :
    (wallet : Pubkey) (payer : Option Pubkey) (config : TransactionConfig) (venue : String)
    {configured : List Instruction}
    → instructions config venue ≡ ok configured
    → All (HasSigners wallet payer) configured
unfolding instructions set_compute_unit_limit budget
instructions-HasSigners wallet payer config venue {configured} e =
    let (checked, e₁, e₂) = >>=-eq-ok (raise_if (is_unsupported config) _) _ e in
    let (heap, e₃, e₄) = >>=-eq-ok (heap_instructions venue config.heap_size) _ e₂ in
    subst (AllOk (HasSigners wallet payer)) e₄ (
      All-append (HasSigners wallet payer) _ _
        (listed-All (HasSigners wallet payer) config.compute_unit_limit set_compute_unit_limit
          (λ n. tt))
        (All-append (HasSigners wallet payer) _ _
          (listed-All (HasSigners wallet payer) config.loaded_accounts_data_size_limit _ (λ n. tt))
          (heap-All (HasSigners wallet payer) venue config.heap_size (λ n. tt) e₃)))

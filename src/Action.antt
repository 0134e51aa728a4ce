-- ===== src/Action.antt =====
-- `async` code: an action reads and changes a world (nodes, wallets, clocks, caches) and returns a
-- result. Concurrent reads (`tokio::join!`) are run one after the other.
use trading_aggregators.Prelude.{String, ◌≡◌, refl, ap, arith}
use trading_aggregators.Error.{TradeError, venue, Result, ok, err, map_err as map_err_result}

abbrev pub Action : Type 0 → Type 0 → Type 0 → Type 0
Action W E A = W → Result E A × W

-- A pure result as an action, and an action on part of a larger world.
abbrev pub lift : {W E A : Type 0} → Result E A → Action W E A
lift r w = (r, w)

abbrev pub pure : {W E A : Type 0} → A → Action W E A
pure a w = (ok a, w)

-- An action that cannot fail.
abbrev pub infallible : {W E A : Type 0} → (W → A × W) → Action W E A
infallible m w = let (a, w') = m w in (ok a, w')

abbrev pub fail : {W E A : Type 0} → E → Action W E A
fail e w = (err e, w)

infixl 5 ◌>>=◌ ◌>>◌
abbrev pub ◌>>=◌ : {W E A B : Type 0} → Action W E A → (A → Action W E B) → Action W E B
◌>>=◌ m f w = let (r, w') = m w in elim r [ ok a ↦ f a w' | err e ↦ (err e, w') ]

abbrev pub ◌>>◌ : {W E A B : Type 0} → Action W E A → Action W E B → Action W E B
m >> k = m >>= λ _. k

second_step :
    {W E A B : Type 0} (f : A → Action W E B) (r : Result E A) (w₁ w' : W) {b : B}
    → (lift r >>= f) w₁ ≡ (ok b, w')
    → (a : A) × (r ≡ ok a) × (f a w₁ ≡ (ok b, w'))
second_step f (ok a) w₁ w' e = (a, refl, e)
second_step f (err x) w₁ w' e = absurd (ground arith)

-- An action in two steps succeeds only if both do.
pub >>=-eq-ok :
    {W E A B : Type 0} (m : Action W E A) (f : A → Action W E B) (w w' : W) {b : B}
    → (m >>= f) w ≡ (ok b, w')
    → (a : A) × (w₁ : W) × (m w ≡ (ok a, w₁)) × (f a w₁ ≡ (ok b, w'))
>>=-eq-ok m f w w' e =
    let (a, first, rest) = second_step f (m w).0 (m w).1 w' e in
    (a, (m w).1, ap (λ r. (r, (m w).1)) first, rest)

-- The result as a value, so that an error does not end the action.
abbrev pub attempt : {W E F A : Type 0} → Action W E A → Action W F (Result E A)
attempt m w = let (r, w') = m w in (ok r, w')

abbrev pub map_err : {W E F A : Type 0} → (E → F) → Action W E A → Action W F A
map_err f m w = let (r, w') = m w in (map_err_result f r, w')

-- `anyhow::Error`: an error of this library, which a caller can take out again, or any other.
pub data AnyError : Type 0 where
  trade : TradeError → AnyError
  other : String → AnyError

-- `dex_err` of `src/solana/executor.rs`.
pub dex_err : String → AnyError → TradeError
dex_err name (trade e) = e
dex_err name (other msg) = venue name msg

-- ===== src/Text.antt =====
-- Texts that a provider sends: what `src/solana/sources/` and `src/aggregators/` read from them with
-- the standard library. The texts of addresses and base64 are other crates', and parameters.
use Prim.Native.Char.{Char, nul}
use trading_aggregators.Prelude.{
  ◌<◌, ◌≡◌, arith, zero, suc, ◌/◌, ℕ, ◌+◌, ◌-◌, ◌*◌, ◌^◌, String, Bool, ◌&&◌, List, [], ◌∷◌, ltb,
  leb, ◌==◌, if◌then◌else◌, not, ◌%◌,
}
use trading_aggregators.Prelude.Bytes.{codes, bytes_eq}
use trading_aggregators.Error.{Result, ok, err, ◌>>=◌}
use trading_aggregators.Solana.Keys.{Pubkey}

-- `a == b` on strings.
abbrev pub string_eq : String → String → Bool
string_eq a b = bytes_eq (codes a) (codes b)

-- `Pubkey::from_str`, `Pubkey::to_string` and base64's `STANDARD.decode`.
pub record KeyText : Type 0 where
  pub parse_key : String → Result String Pubkey
  pub show_key : Pubkey → String
  pub decode_base64 : String → Result String (List ℕ)

-- `items.map(f).collect::<Result<Vec<_>>>()`: the first error ends it.
abbrev pub collect {ℓ κ κ'} :
    {E : Type ℓ} {A : Type κ} {B : Type κ'} → (A → Result E B) → List A → Result E (List B)
collect f [] = ok []
collect f (x ∷ xs) = f x >>= λ y. collect f xs >>= λ ys. ok (y ∷ ys)

abbrev is_digit : ℕ → Bool
is_digit c = leb b'0' c && leb c b'9'

unfoldable pub parse_digits : ℕ → List ℕ → Result String ℕ
parse_digits acc [] = ok acc
parse_digits acc (c ∷ cs) =
    let n = acc * 10 + (c - b'0') in
    let rest = parse_digits n cs in
    if not (is_digit c)
    then err "invalid digit found in string"
    else (if leb (2 ^ 64) n then err "number too large to fit in target type" else rest)

abbrev after_sign : List ℕ → Result String ℕ
after_sign [] = err "invalid digit found in string"
after_sign (c ∷ cs) = parse_digits 0 (c ∷ cs)

-- `u64::from_str`
unfoldable pub parse_u64 : List ℕ → Result String ℕ
parse_u64 [] = err "cannot parse integer from empty string"
parse_u64 (c ∷ cs) = if c == b'+' then after_sign cs else parse_digits 0 (c ∷ cs)

char_at : ℕ → String → Char
char_at i String.[] = nul
char_at zero (String.◌∷◌ c s) = c
char_at (suc i) (String.◌∷◌ c s) = char_at i s

digit : ℕ → Char
unfolding char_at
digit d = char_at d "0123456789"

-- The digits of a number in front of a text, on fuel for as many digits.
digits_before : ℕ → ℕ → String → String
unfolding digit
digits_before zero n s = s
digits_before (suc fuel) n s =
    let longer = digits_before fuel (n / 10) (String.◌∷◌ (digit (n % 10)) s) in
    if ltb n 10 then String.◌∷◌ (digit n) s else longer

-- `to_string` of an integer of at most 256 bits, which has at most 78 digits.
unfoldable pub show_nat : ℕ → String
unfolding digits_before
show_nat n = digits_before 78 n String.[]

parse_digits_lt :
    (acc : ℕ) (cs : List ℕ) (n : ℕ) → acc < 2 ^ 64 → parse_digits acc cs ≡ ok n → n < 2 ^ 64
unfolding parse_digits
parse_digits_lt acc [] n h e = ground arith
parse_digits_lt acc (c ∷ cs) n h e = ground (arith, parse_digits_lt (acc * 10 + (c - b'0')) cs n)

after_sign_lt : (cs : List ℕ) (n : ℕ) → after_sign cs ≡ ok n → n < 2 ^ 64
after_sign_lt [] n e = absurd (ground arith)
after_sign_lt (c ∷ cs) n e = parse_digits_lt 0 (c ∷ cs) n (omega arith) e

-- Whatever is read is a `u64`.
pub parse_u64_lt : (cs : List ℕ) (n : ℕ) → parse_u64 cs ≡ ok n → n < 2 ^ 64
unfolding parse_u64
parse_u64_lt [] n e = absurd (ground arith)
parse_u64_lt (c ∷ cs) n e =
    ground (arith, after_sign_lt cs n, parse_digits_lt 0 (c ∷ cs) n (omega arith))

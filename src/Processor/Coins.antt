-- ===== src/Processor/Coins.antt =====
-- processor/converter.go: parseCoinAmount. `strconv.ParseInt` on base 10 and 64 bits: an optional
-- sign, digits, and an error outside the range of int64.
use pocket_settlement_monito.Prelude.{
  ℕ, ◌+◌, ◌-◌, ◌*◌, ◌%◌, ◌≡◌, refl, Bool, true, false, ◌&&◌, Option, none, some, [], ◌∷◌, ◌++◌, leb,
  ltb, ◌==◌, if◌then◌else◌, arith, All, fold, ◌≢◌,
}
use pocket_settlement_monito.Prelude.Words.{Int64, two63, two64}
use pocket_settlement_monito.Subscriber.Types.{Bytes}

abbrev same_bytes : Bytes → Bytes → Bool
same_bytes [] [] = true
same_bytes (a ∷ x) (b ∷ y) = a == b && same_bytes x y
same_bytes _ _ = false

-- "upokt"
abbrev pub upokt : Bytes
upokt = b'u' ∷ b'p' ∷ b'o' ∷ b'k' ∷ b't' ∷ []

-- strings.TrimSuffix
trim_suffix : Bytes → Bytes → Bytes
trim_suffix suffix [] = []
trim_suffix suffix (c ∷ s) = if same_bytes (c ∷ s) suffix then [] else c ∷ trim_suffix suffix s

abbrev pub is_digit : ℕ → Bool
is_digit c = leb b'0' c && leb c b'9'

-- The value of digits after `acc`; none at a byte that is no digit.
digits_value : ℕ → Bytes → Option ℕ
digits_value acc [] = some acc
digits_value acc (c ∷ s) =
    let rest = digits_value (acc * 10 + (c - b'0')) s in if is_digit c then rest else none

-- At least one digit is wanted.
unsigned_value : Bytes → Option ℕ
unsigned_value [] = none
unsigned_value (c ∷ s) = digits_value 0 (c ∷ s)

-- Values at the ends of int64 and beyond: an error above 2^63 - 1 and below -2^63.
positive_int64 : Option ℕ → Option Int64
positive_int64 none = none
positive_int64 (some n) = if ltb n two63 then some n else none

negative_int64 : Option ℕ → Option Int64
negative_int64 none = none
negative_int64 (some n) = if leb n two63 then some ((two64 - n) % two64) else none

parse_int : Bytes → Option Int64
unfolding unsigned_value positive_int64 negative_int64
parse_int [] = none
parse_int (c ∷ s) =
    if c == b'+'
    then positive_int64 (unsigned_value s)
    else if c == b'-'
    then negative_int64 (unsigned_value s)
    else positive_int64 (unsigned_value (c ∷ s))

or_zero : Option Int64 → Int64
or_zero none = 0
or_zero (some n) = n

unfoldable pub parse_coin_amount : Bytes → Int64
unfolding parse_int or_zero trim_suffix digits_value
parse_coin_amount [] = 0
parse_coin_amount (c ∷ s) = or_zero (parse_int (trim_suffix upokt (c ∷ s)))

-- The number that a list of digits writes in base 10.
abbrev pub number : Bytes → ℕ
number = fold (λ acc c. acc * 10 + (c - b'0')) 0

abbrev pub AllDigits : Bytes → Type 0
AllDigits = All (λ c. is_digit c ≡ true)

digits_value-fold :
    (s : Bytes) (acc : ℕ)
    → AllDigits s
    → digits_value acc s ≡ some (fold (λ n c. n * 10 + (c - b'0')) acc s)
unfolding digits_value
digits_value-fold [] acc h = refl
digits_value-fold (c ∷ s) acc h = rw h.0 (digits_value-fold s (acc * 10 + (c - b'0')) h.1)

-- A digit is not the first byte of the suffix, so only the suffix goes.
trim_suffix-digits : (s : Bytes) → AllDigits s → trim_suffix upokt (s ++ upokt) ≡ s
unfolding trim_suffix
trim_suffix-digits [] h = refl
trim_suffix-digits (c ∷ s) h = ground (arith, trim_suffix-digits s h.1)

-- An amount written as digits and "upokt" is read as its number where that fits an int64, and as 0
-- where it does not.
pub parse_coin_amount-number :
    (s : Bytes)
    → AllDigits s
    → s ≢ []
    → parse_coin_amount (s ++ upokt) ≡ (if ltb (number s) two63 then number s else 0)
unfolding parse_coin_amount parse_int
parse_coin_amount-number [] h n = absurd (n refl)
parse_coin_amount-number (c ∷ s) h n =
    rw (trim_suffix-digits (c ∷ s) h, parse_coin_amount)
      (ground (arith, digits_value-fold (c ∷ s) 0 h))

coin_read : parse_coin_amount (b'1' ∷ b'0' ∷ b'0' ∷ b'0' ∷ upokt) ≡ 1000
unfolding parse_coin_amount
coin_read = refl

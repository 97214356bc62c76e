-- ===== src/Notify/Format.antt =====
-- notify/discord.go: formatPOKT and formatWithCommas. A text is the list of its bytes.
pub mod Digits
pub mod Groups
pub mod Pokt
pub mod Lengths
use pocket_settlement_monito.Prelude.{
  ℕ, zero, suc, ◌+◌, ◌-◌, ◌*◌, ◌/◌, ◌%◌, Bool, true, false, ◌&&◌, [], ◌∷◌, ◌++◌, leb, ltb, ◌==◌,
  length, if◌then◌else◌,
}
use pocket_settlement_monito.Prelude.Words.{Int64, two63, two64}
use pocket_settlement_monito.Subscriber.Types.{Bytes}

abbrev pub digit : ℕ → ℕ
digit n = b'0' + n % 10

-- The last digits of `n`, as many as there is fuel for, before `acc`.
unfoldable pub digits : ℕ → ℕ → Bytes → Bytes
digits zero n acc = acc
digits (suc fuel) n acc =
    let rest = digits fuel (n / 10) (digit n ∷ acc) in if ltb n 10 then digit n ∷ acc else rest

-- A number below 10 ^ 20, as any int64's magnitude is.
abbrev pub decimal : ℕ → Bytes
decimal n = digits 20 n []

abbrev pub zeros : ℕ → Bytes
zeros zero = []
zeros (suc n) = b'0' ∷ zeros n

-- The digits, padded to a width.
abbrev pub padded : ℕ → Bytes → Bytes
padded width s = zeros (width - length s) ++ s

abbrev pub magnitude : Int64 → ℕ
magnitude n = if ltb n two63 then n else two64 - n

-- `%d` and `%06d`: the width counts the sign.
abbrev pub print_int : Int64 → Bytes
print_int n = if ltb n two63 then decimal n else b'-' ∷ decimal (two64 - n)

abbrev pub print_padded : Int64 → Bytes
print_padded n = if ltb n two63 then padded 6 (decimal n) else b'-' ∷ padded 5 (decimal (two64 - n))

abbrev pub neg64 : Int64 → Int64
neg64 n = (two64 - n) % two64

-- `/` and `%` by a positive constant, towards 0.
abbrev pub quo64 : Int64 → ℕ → Int64
quo64 n d = if ltb n two63 then n / d else neg64 ((two64 - n) / d)

abbrev pub rem64 : Int64 → ℕ → Int64
rem64 n d = if ltb n two63 then n % d else neg64 ((two64 - n) % d)

-- The loop over the text: a comma before a character if a multiple of three are left, but not at first.
unfoldable pub with_commas : Bool → Bytes → Bytes
with_commas first [] = []
with_commas first (c ∷ s) =
    let rest = c ∷ with_commas false s in
    if first then rest else if length (c ∷ s) % 3 == 0 then b',' ∷ rest else rest

unfoldable pub format_with_commas : Int64 → Bytes
format_with_commas n =
    if leb (length (print_int n)) 3 then print_int n else with_commas true (print_int n)

abbrev pub upokt_per_pokt : ℕ
upokt_per_pokt = 1000000

-- " POKT"
abbrev pub pokt : Bytes
pokt = b' ' ∷ b'P' ∷ b'O' ∷ b'K' ∷ b'T' ∷ []

abbrev pub unsigned_pokt : Int64 → Bytes
unsigned_pokt n =
    format_with_commas (quo64 n upokt_per_pokt)
    ++ (b'.' ∷ (print_padded (rem64 n upokt_per_pokt) ++ pokt))

unfoldable pub format_pokt : Int64 → Bytes
format_pokt upokt =
    if ltb upokt two63 then unsigned_pokt upokt else b'-' ∷ unsigned_pokt (neg64 upokt)

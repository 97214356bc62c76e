-- ===== src/Notify/Format/Lengths.antt =====
-- How long the printed numbers are.

use pocket_settlement_monito.Prelude.{
  ℕ, zero, suc, ◌+◌, ◌-◌, ◌*◌, ◌≤◌, ◌≡◌, inl, inr, Bool, true, false, [], ◌∷◌, ◌++◌, ltb, leb, ◌==◌,
  length, ◌%◌, ◌/◌, length-append, arith, Bool-cases, if◌then◌else◌,
}
use pocket_settlement_monito.Prelude.Words.{Int64, two63, two64}
use pocket_settlement_monito.Subscriber.Types.{Bytes}
use pocket_settlement_monito.Notify.Format.{
  digit, digits, decimal, zeros, padded, print_int, print_padded, neg64, quo64, rem64, with_commas,
  format_with_commas, pokt, unsigned_pokt, format_pokt,
}

length-either :
    (b : Bool) (x y : Bytes) (k : ℕ) → length x ≤ k → length y ≤ k → length (if b then x else y) ≤ k
length-either true x y k hx hy = hx
length-either false x y k hx hy = hy

length-digits : (fuel n : ℕ) (acc : Bytes) → length (digits fuel n acc) ≤ fuel + length acc
unfolding digits
length-digits zero n acc = omega arith
length-digits (suc fuel) n acc = elim (Bool-cases (ltb n 10)) [
  | inl one ↦ rw one (omega arith)
  | inr more ↦ rw more (omega (arith, length-digits fuel (n / 10) (digit n ∷ acc)))
]

pub length-decimal : (n : ℕ) → length (decimal n) ≤ 20
length-decimal n = omega (arith, length-digits 20 n [])

length-padded : (width : ℕ) (s : Bytes) → width ≤ 6 → length (padded width s) ≤ 6 + length s
length-padded width s narrow = ground (arith, length-zeros (width - length s) s)
  where
    length-zeros : (k : ℕ) (s' : Bytes) → length (zeros k ++ s') ≡ k + length s'
    length-zeros zero s' = omega arith
    length-zeros (suc k) s' = omega (arith, length-zeros k s')

pub length-print_int : (n : Int64) → length (print_int n) ≤ 21
length-print_int n =
    length-either (ltb n two63) (decimal n) (b'-' ∷ decimal (two64 - n)) 21
      (omega (arith, length-decimal n)) (omega (arith, length-decimal (two64 - n)))

length-print_padded : (n : Int64) → length (print_padded n) ≤ 27
length-print_padded n =
    length-either (ltb n two63) (padded 6 (decimal n)) (b'-' ∷ padded 5 (decimal (two64 - n))) 27
      (omega (arith, length-decimal n, length-padded 6 (decimal n) (omega arith)))
      (omega
        (arith, length-decimal (two64 - n), length-padded 5 (decimal (two64 - n)) (omega arith)))

length-with_commas : (first : Bool) (s : Bytes) → length (with_commas first s) ≤ 2 * length s
unfolding with_commas
length-with_commas first [] = omega arith
length-with_commas true (c ∷ s) = omega (arith, length-with_commas false s)
length-with_commas false (c ∷ s) = elim (Bool-cases (length (c ∷ s) % 3 == 0)) [
  | inl three ↦ rw three (omega (arith, length-with_commas false s))
  | inr other ↦ rw other (omega (arith, length-with_commas false s))
]

pub length-format_with_commas : (n : Int64) → length (format_with_commas n) ≤ 42
unfolding format_with_commas
length-format_with_commas n =
    length-either (leb (length (print_int n)) 3) (print_int n) (with_commas true (print_int n)) 42
      (omega (arith, length-print_int n))
      (omega (arith, length-print_int n, length-with_commas true (print_int n)))

length-unsigned_pokt : (n : Int64) → length (unsigned_pokt n) ≤ 75
length-unsigned_pokt n =
    let whole = format_with_commas (quo64 n 1000000) in
    let part = print_padded (rem64 n 1000000) in
    omega (
      arith,
      length-append whole (b'.' ∷ (part ++ pokt)),
      length-append part pokt,
      length-format_with_commas (quo64 n 1000000),
      length-print_padded (rem64 n 1000000),
    )

pub length-format_pokt : (n : Int64) → length (format_pokt n) ≤ 76
unfolding format_pokt
length-format_pokt n =
    length-either (ltb n two63) (unsigned_pokt n) (b'-' ∷ unsigned_pokt (neg64 n)) 76
      (omega (arith, length-unsigned_pokt n)) (omega (arith, length-unsigned_pokt (neg64 n)))

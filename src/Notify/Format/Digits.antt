-- ===== src/Notify/Format/Digits.antt =====
-- The number that printed digits write.
use native.Mathlib.Nat.{pow-succ'}
use pocket_settlement_monito.Prelude.{
  ℕ, zero, suc, ◌+◌, ◌-◌, ◌*◌, ◌/◌, ◌%◌, ◌^◌, ◌<◌, ◌≤◌, ◌≡◌, refl, ap, ◌∙◌, inl, inr, Bool, true,
  false, [], ◌∷◌, ◌++◌, ltb, ◌==◌, length, select, fold, arith, Bool-cases,
}
use pocket_settlement_monito.Subscriber.Types.{Bytes}
use pocket_settlement_monito.Processor.Coins.{is_digit, number, AllDigits}
use pocket_settlement_monito.Notify.Format.{digit, digits, decimal, zeros, padded, with_commas}

abbrev pub next_digit : ℕ → ℕ → ℕ
next_digit acc c = acc * 10 + (c - b'0')

digits-fold :
    (fuel n : ℕ) (acc : Bytes)
    → n < 10 ^ suc fuel
    → fold next_digit 0 (digits (suc fuel) n acc) ≡ fold next_digit n acc
unfolding digits
digits-fold zero n acc small =
    let one : ltb n 10 ≡ true = ground arith in
    rw one (ap (λ k. fold next_digit k acc) (omega arith))
digits-fold (suc fuel) n acc small = elim (Bool-cases (ltb n 10)) [
  | inl one ↦ rw one (ap (λ k. fold next_digit k acc) (ground arith))
  | inr more ↦ rw more (
      digits-fold fuel (n / 10) (digit n ∷ acc) (omega (arith, pow-succ' 10 (suc fuel)))
      ∙ ap (λ k. fold next_digit k acc) (omega arith))
]

digits-AllDigits : (fuel n : ℕ) (acc : Bytes) → AllDigits acc → AllDigits (digits fuel n acc)
unfolding digits
digits-AllDigits zero n acc h = h
digits-AllDigits (suc fuel) n acc h =
    let here : is_digit (digit n) ≡ true = ground arith in
    elim (Bool-cases (ltb n 10)) [
      | inl one ↦ rw one (here, h)
      | inr more ↦ rw more (digits-AllDigits fuel (n / 10) (digit n ∷ acc) (here, h))
    ]

pub decimal-number : (n : ℕ) → n < 10 ^ 20 → number (decimal n) ≡ n
decimal-number n small = digits-fold 19 n [] small

pub decimal-AllDigits : (n : ℕ) → AllDigits (decimal n)
decimal-AllDigits n = digits-AllDigits 20 n [] tt

-- Leading zeros change nothing.
zeros-fold : (k : ℕ) (s : Bytes) → fold next_digit 0 (zeros k ++ s) ≡ fold next_digit 0 s
zeros-fold zero s = refl
zeros-fold (suc k) s = zeros-fold k s

zeros-AllDigits : (k : ℕ) (s : Bytes) → AllDigits s → AllDigits (zeros k ++ s)
zeros-AllDigits zero s h = h
zeros-AllDigits (suc k) s h = (refl, zeros-AllDigits k s h)

length-zeros : (k : ℕ) (s : Bytes) → length (zeros k ++ s) ≡ k + length s
length-zeros zero s = omega arith
length-zeros (suc k) s = omega (arith, length-zeros k s)

pub padded-number : (width n : ℕ) → n < 10 ^ 20 → number (padded width (decimal n)) ≡ n
padded-number width n small =
    zeros-fold (width - length (decimal n)) (decimal n) ∙ decimal-number n small

pub padded-AllDigits : (width n : ℕ) → AllDigits (padded width (decimal n))
padded-AllDigits width n =
    zeros-AllDigits (width - length (decimal n)) (decimal n) (decimal-AllDigits n)

-- A number below 10 ^ f has at most f digits.
length-digits :
    (fuel n : ℕ) (acc : Bytes) (f : ℕ)
    → n < 10 ^ suc f
    → f ≤ fuel
    → length (digits (suc fuel) n acc) ≤ suc f + length acc
unfolding digits
length-digits fuel n acc zero small low =
    let one : ltb n 10 ≡ true = ground arith in rw one (omega arith)
length-digits zero n acc (suc f) small low = absurd (omega arith)
length-digits (suc fuel) n acc (suc f) small low = elim (Bool-cases (ltb n 10)) [
  | inl one ↦ rw one (omega arith)
  | inr more ↦ rw more (
      omega (
        arith,
        length-digits fuel (n / 10) (digit n ∷ acc) f (omega (arith, pow-succ' 10 (suc f)))
            (omega arith),
      ))
]

pub padded-length : (n : ℕ) → n < 1000000 → length (padded 6 (decimal n)) ≡ 6
padded-length n small =
    let bound : length (decimal n) ≤ 6 = length-digits 19 n [] 5 small (omega arith) in
    omega (arith, length-zeros (6 - length (decimal n)) (decimal n), bound)

-- Without the commas the text is as before.
pub select-with_commas :
    (first : Bool) (s : Bytes) → AllDigits s → select is_digit (with_commas first s) ≡ s
unfolding with_commas
select-with_commas first [] h = refl
select-with_commas true (c ∷ s) h = rw h.0 (ap (λ l. c ∷ l) (select-with_commas false s h.1))
select-with_commas false (c ∷ s) h = elim (Bool-cases (length (c ∷ s) % 3 == 0)) [
  | inl three ↦ rw (three, h.0) (ap (λ l. c ∷ l) (select-with_commas false s h.1))
  | inr other ↦ rw (other, h.0) (ap (λ l. c ∷ l) (select-with_commas false s h.1))
]

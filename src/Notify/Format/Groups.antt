-- ===== src/Notify/Format/Groups.antt =====
-- Where formatWithCommas puts its commas.
use pocket_settlement_monito.Prelude.{
  ℕ, zero, suc, ◌+◌, ◌-◌, ◌*◌, ◌/◌, ◌%◌, ◌≤◌, ◌<◌, ◌≡◌, inl, inr, ◌⊎◌, true, false, [], ◌∷◌, leb,
  ltb, ◌==◌, length, arith, Bool-cases,
}
use pocket_settlement_monito.Prelude.Words.{Int64, two63}
use pocket_settlement_monito.Subscriber.Types.{Bytes}
use pocket_settlement_monito.Processor.Coins.{AllDigits}
use pocket_settlement_monito.Notify.Format.{digit, digits, decimal, with_commas, format_with_commas}
use pocket_settlement_monito.Notify.Format.Digits.{decimal-AllDigits}

-- Groups of a comma and three digits.
pub data Groups : Bytes → Type 0 where
  no_group : Groups []
  group :
      {a b c : ℕ} {s : Bytes}
      → AllDigits (a ∷ b ∷ c ∷ [])
      → Groups s
      → Groups (b',' ∷ a ∷ b ∷ c ∷ s)

-- One to three digits, and groups.
pub data IsGrouped : Bytes → Type 0 where
  one : {a : ℕ} {s : Bytes} → AllDigits (a ∷ []) → Groups s → IsGrouped (a ∷ s)
  two : {a b : ℕ} {s : Bytes} → AllDigits (a ∷ b ∷ []) → Groups s → IsGrouped (a ∷ b ∷ s)
  three :
      {a b c : ℕ} {s : Bytes} → AllDigits (a ∷ b ∷ c ∷ []) → Groups s → IsGrouped (a ∷ b ∷ c ∷ s)

-- Before three digits more than a multiple of three comes a comma, and none before the next two.
with_commas-Groups :
    (k : ℕ) (s : Bytes) → length s ≡ 3 * k → AllDigits s → Groups (with_commas false s)
unfolding with_commas
with_commas-Groups zero [] e h = no_group
with_commas-Groups zero (a ∷ s) e h = absurd (omega arith)
with_commas-Groups (suc k) [] e h = absurd (omega arith)
with_commas-Groups (suc k) (a ∷ []) e h = absurd (omega arith)
with_commas-Groups (suc k) (a ∷ b ∷ []) e h = absurd (omega arith)
with_commas-Groups (suc k) (a ∷ b ∷ c ∷ s) e h =
    let at_comma : (length (a ∷ b ∷ c ∷ s) % 3 == 0) ≡ true = ground arith in
    let after_one : (length (b ∷ c ∷ s) % 3 == 0) ≡ false = ground arith in
    let after_two : (length (c ∷ s) % 3 == 0) ≡ false = ground arith in
    rw (at_comma, after_one, after_two)
      (group (h.0, (h.1.0, (h.1.1.0, tt))) (with_commas-Groups k s (omega arith) h.1.1.1))

with_commas-IsGrouped :
    (k : ℕ) (s : Bytes)
    → (length s ≡ 3 * k + 1) ⊎ ((length s ≡ 3 * k + 2) ⊎ (length s ≡ 3 * k + 3))
    → AllDigits s
    → IsGrouped (with_commas true s)
unfolding with_commas
with_commas-IsGrouped k [] e h = absurd (ground arith)
with_commas-IsGrouped k (a ∷ s) (inl e) h = one (h.0, tt) (with_commas-Groups k s (omega arith) h.1)
with_commas-IsGrouped k (a ∷ []) (inr e) h = absurd (ground arith)
with_commas-IsGrouped k (a ∷ b ∷ s) (inr (inl e)) h =
    let no_comma : (length (b ∷ s) % 3 == 0) ≡ false = ground arith in
    rw no_comma (two (h.0, (h.1.0, tt)) (with_commas-Groups k s (omega arith) h.1.1))
with_commas-IsGrouped k (a ∷ b ∷ []) (inr (inr e)) h = absurd (ground arith)
with_commas-IsGrouped k (a ∷ b ∷ c ∷ s) (inr (inr e)) h =
    let no_comma : (length (b ∷ c ∷ s) % 3 == 0) ≡ false = ground arith in
    let none_next : (length (c ∷ s) % 3 == 0) ≡ false = ground arith in
    rw (no_comma, none_next)
      (three (h.0, (h.1.0, (h.1.1.0, tt))) (with_commas-Groups k s (omega arith) h.1.1.1))

short-IsGrouped : (s : Bytes) → 1 ≤ length s → length s ≤ 3 → AllDigits s → IsGrouped s
short-IsGrouped [] low high h = absurd (omega arith)
short-IsGrouped (a ∷ []) low high h = one h no_group
short-IsGrouped (a ∷ b ∷ []) low high h = two h no_group
short-IsGrouped (a ∷ b ∷ c ∷ []) low high h = three h no_group
short-IsGrouped (a ∷ b ∷ c ∷ d ∷ s) low high h = absurd (omega arith)

length-digits-le : (fuel n : ℕ) (acc : Bytes) → length acc ≤ length (digits fuel n acc)
unfolding digits
length-digits-le zero n acc = omega arith
length-digits-le (suc fuel) n acc = ground (arith, length-digits-le fuel (n / 10) (digit n ∷ acc))

length-decimal-pos : (n : ℕ) → 1 ≤ length (decimal n)
unfolding digits
length-decimal-pos n = ground (arith, length-digits-le 19 (n / 10) (digit n ∷ []))

pub format_with_commas-IsGrouped : (n : Int64) → n < two63 → IsGrouped (format_with_commas n)
unfolding format_with_commas
format_with_commas-IsGrouped n small =
    let positive : ltb n two63 ≡ true = ground arith in
    let some_digits = length-decimal-pos n in
    rw positive (elim (Bool-cases (leb (length (decimal n)) 3)) [
      | inl short ↦
          rw short (short-IsGrouped (decimal n) some_digits (ground arith) (decimal-AllDigits n))
      | inr long ↦ rw long (
          with_commas-IsGrouped ((length (decimal n) - 1) / 3) (decimal n) (ground arith)
            (decimal-AllDigits n))
    ])

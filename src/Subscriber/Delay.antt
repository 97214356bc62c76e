-- ===== src/Subscriber/Delay.antt =====
-- subscriber/subscriber.go: NextDelay. `rand.Int64N` is an argument.
use native.Mathlib.Nat.{pow-succ', mul_assoc}
use pocket_settlement_monito.Prelude.{
  ℕ, zero, suc, ◌+◌, ◌-◌, ◌*◌, ◌/◌, ◌%◌, ◌^◌, ◌≤◌, ◌<◌, ◌≡◌, inl, inr, arith, if◌then◌else◌, leb,
  ltb, Bool-cases, ap, sym, ◌∙◌,
}
use pocket_settlement_monito.Prelude.Words.{Int64, two64, add64, sub64, slt}

-- `for i := 0; i < attempt; i++ { delay *= 2; if delay > maxDelay { … break } }`
unfoldable pub grow : ℕ → Int64 → Int64 → Int64
grow zero max_delay delay = delay
grow (suc attempt) max_delay delay =
    let doubled = (delay * 2) % two64 in
    if slt max_delay doubled then max_delay else grow attempt max_delay doubled

module _ (rand_int64n : Int64 → Int64) where
  -- A delay is not negative, so its fifth is that of the number.
  pub next_delay : ℕ → Int64 → Int64 → Int64
  next_delay attempt base_delay max_delay =
      let delay = grow attempt max_delay base_delay in
      let jitter = delay / 5 in
      if slt 0 jitter
      then add64 (sub64 delay jitter) (rand_int64n (add64 ((2 * jitter) % two64) 1))
      else delay

-- The smaller one.
abbrev pub least : ℕ → ℕ → ℕ
least a b = if leb a b then a else b

power-double : (d n : ℕ) → d * 2 ^ suc n ≡ (d * 2) * 2 ^ n
power-double d n = ap (λ p. d * p) (pow-succ' 2 n) ∙ sym (mul_assoc d 2 (2 ^ n))

pub le-power : (d n : ℕ) → d ≤ d * 2 ^ n
le-power d zero = omega arith
le-power d (suc n) = omega (arith, le-power (d * 2) n, power-double d n)

grow_next :
    (max_delay delay : Int64)
    → max_delay < 4611686018427387904
    → delay ≤ max_delay
    → slt max_delay ((delay * 2) % two64) ≡ ltb max_delay (delay * 2)
grow_next max_delay delay fits below = ground arith

-- The loop doubles up to the maximum, which does not exceed a quarter of the range of an int64.
pub grow_lem :
    (attempt : ℕ) (max_delay delay : Int64)
    → max_delay < 4611686018427387904
    → delay ≤ max_delay
    → grow attempt max_delay delay ≡ least (delay * 2 ^ attempt) max_delay
unfolding grow
grow_lem zero max_delay delay fits below = ground arith
grow_lem (suc attempt) max_delay delay fits below =
    rw (grow_next max_delay delay fits below, power-double delay attempt)
      (elim (Bool-cases (ltb max_delay (delay * 2))) [
        | inl over ↦ rw over (ground (arith, le-power (delay * 2) attempt))
        | inr under ↦
            let exact : (delay * 2) % two64 ≡ delay * 2 = ground arith in
            rw (under, exact) (grow_lem attempt max_delay (delay * 2) fits (ground arith))
      ])

jittered :
    (delay jitter r : Int64)
    → delay < 4611686018427387904
    → jitter ≤ delay
    → r < add64 ((2 * jitter) % two64) 1
    → (delay - jitter ≤ add64 (sub64 delay jitter) r)
      × (add64 (sub64 delay jitter) r ≤ delay + jitter)
jittered delay jitter r small part bound = (omega arith, omega arith)

-- For a base that is at most the maximum, and a maximum that is less than a quarter of the range of
-- int64 (146 years), the delay lies within a fifth of the smaller one of the maximum and the base
-- doubled once for each attempt, whatever number below its bound the generator returns.
pub next_delay_bounds :
    (rand_int64n : Int64 → Int64) (attempt : ℕ) (base_delay max_delay : Int64)
    → ((n : Int64) → 0 < n → rand_int64n n < n)
    → max_delay < 4611686018427387904
    → base_delay ≤ max_delay
    → let middle = least (base_delay * 2 ^ attempt) max_delay in
      (middle - middle / 5 ≤ next_delay rand_int64n attempt base_delay max_delay)
      × (next_delay rand_int64n attempt base_delay max_delay ≤ middle + middle / 5)
unfolding next_delay
next_delay_bounds rand attempt base_delay max_delay random fits below =
    rw (grow_lem attempt max_delay base_delay fits below)
      (around (least (base_delay * 2 ^ attempt) max_delay) (ground arith))
  where
    around :
        (delay : Int64)
        → delay < 4611686018427387904
        → let jitter = delay / 5 in
          let actual : Int64 =
            if slt 0 jitter
            then add64 (sub64 delay jitter) (rand (add64 ((2 * jitter) % two64) 1))
            else delay in
          (delay - jitter ≤ actual) × (actual ≤ delay + jitter)
    around delay small = elim (Bool-cases (slt 0 (delay / 5))) [
      | inl some ↦ rw some (
          jittered delay (delay / 5) (rand (add64 ((2 * (delay / 5)) % two64) 1)) small
            (omega arith) (random (add64 ((2 * (delay / 5)) % two64) 1) (omega arith)))
      | inr none ↦ rw none (omega arith, omega arith)
    ]

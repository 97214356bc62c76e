-- ===== src/Cmd/Backfill/Range.antt =====
-- The range of a backfill, and the blocks that it processes.
use mathlib.Core.Option.{some_inj}
use pocket_settlement_monito.Prelude.{
  ℕ, zero, suc, ◌+◌, ◌-◌, ◌≤◌, ◌≡◌, refl, ap, inl, inr, Option, Bool-cases, none, some, ltb, leb,
  ◌==◌, if◌then◌else◌, arith, ◌&&◌,
}
use pocket_settlement_monito.Cmd.Backfill.{start_height, gap_to, backfill_range}

-- What the documentation's matrix says of an empty database and of one with data, with and without a
-- requested height (0 is none).
abbrev first_wanted : ℕ → ℕ → ℕ
first_wanted zero requested = requested
first_wanted (suc last) zero = suc (suc last)
first_wanted (suc last) (suc requested) =
    if ltb requested last then suc requested else suc (suc last)

-- A height is in the range of the backfill exactly if it is not above the chain's and not below the
-- first one wanted: that is the requested height where the database is empty or its last height is
-- greater, and else the height after the last one; with an empty database and no request there is none.
pub backfill_range_lem :
    (last requested current : ℕ)
    → backfill_range last requested current ≡ (
        if last == 0 && requested == 0
        then none
        else if leb (first_wanted last requested) current
        then some (first_wanted last requested, current - first_wanted last requested + 1)
        else none)
unfolding backfill_range start_height
backfill_range_lem zero zero current = refl
backfill_range_lem zero (suc requested) current = ground arith
backfill_range_lem (suc last) zero current = ground arith
backfill_range_lem (suc last) (suc requested) current = ground arith

gap_to-ends :
    (current from n : ℕ) (first : Option ℕ)
    → gap_to current first ≡ some (from, n)
    → (1 ≤ n) × (from + n - 1 ≡ current)
gap_to-ends current from n none gap = absurd (ground arith)
gap_to-ends current from n (some f) gap = elim (Bool-cases (ltb current f)) [
  | inl over ↦ absurd (ground arith)
  | inr under ↦
      let same : (f, current - f + 1) ≡ (from, n) = some_inj.0 (rw under at gap) in
      let first : f ≡ from = ap (λ q. q.0) same in
      let count : current - f + 1 ≡ n = ap (λ q. q.1) same in ground (arith, first, count, under)
]

-- A range ends at the chain's height.
pub backfill_range-ends :
    (last requested current from n : ℕ)
    → backfill_range last requested current ≡ some (from, n)
    → (1 ≤ n) × (from + n - 1 ≡ current)
unfolding backfill_range
backfill_range-ends last requested current from n =
    gap_to-ends current from n (start_height last requested)

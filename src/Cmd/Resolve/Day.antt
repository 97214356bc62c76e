-- ===== src/Cmd/Resolve/Day.antt =====
-- The range of a day: what --from and --to make of a date.
use pocket_settlement_monito.Prelude.{
  ℕ, ◌+◌, ◌-◌, ◌≤◌, ◌<◌, ◌≡◌, refl, sym, ◌∙◌, ◌⊎◌, inl, inr, true, Option, some, ltb, leb, arith,
  Bool-cases,
}
use pocket_settlement_monito.Prelude.Exec.{Result}
use pocket_settlement_monito.Store.Models.{Time}
use pocket_settlement_monito.Cmd.Search.First.{pruned_node, Finds, find-Finds}
use pocket_settlement_monito.Cmd.Resolve.{
  date, before_earliest, Resolved, resolved, refused, next_day, ended, last_of_day,
  resolve_to_height,
}

module _ (earliest latest : ℕ) (time : ℕ → Time) (mono : (a b : ℕ) → a ≤ b → time a ≤ time b) where
  -- A height that ends the day before `next`, or the error that no block is left.
  abbrev pub EndsDay : Time → Option Resolved → Type 0
  EndsDay next out =
      ((out ≡ some (refused before_earliest)) × ((next ≤ time earliest) ⊎ (earliest ≡ latest)))
      ⊎ ((r : ℕ) × (out ≡ some (resolved r))
          × (earliest ≤ r)
          × (r < latest)
          × ((h : ℕ) → earliest ≤ h → h ≤ r → time h < next)
          × ((r + 1 ≡ latest) ⊎ (next ≤ time (r + 1))))

  last_of_day-EndsDay :
      (next : Time) (out : Option (Result ℕ))
      → Finds earliest time next latest mono earliest latest out
      → EndsDay next
          (ended (last_of_day (some (earliest, latest)) (pruned_node earliest time) earliest) out)
  last_of_day-EndsDay next out (r, e, above, below, last, before) =
      rw e (elim (Bool-cases (leb r earliest)) [
        | inl low ↦
            let same : r ≡ earliest = ground (arith) in
            rw low (
              inl (
                refl,
                elim last [ inl end ↦ inr (sym same ∙ end) | inr late ↦ inl (rw same at late) ],
              ))
        | inr later ↦
            let above' : earliest < r = ground arith in
            let back : r - 1 + 1 ≡ r = omega arith in
            rw later (
              inr (
                r - 1,
                refl,
                omega arith,
                omega arith,
                λ h from under. before h from from (omega arith),
                elim last [ inl end ↦ inl (back ∙ end) | inr late ↦ inr (rw back late) ],
              ))
      ])

  -- On a node that reports its earliest and its latest height, below 2 ^ 62, and whose blocks have times that
  -- do not decrease, --to with a date ends. Either it is refused, and then the earliest block is already
  -- of the next day or later, or is the only one. Or it is a height before the latest one, all available
  -- blocks up to it are before the next day, and the block after it is of the next day or later, or is the
  -- latest one, whatever its time.
  pub resolve_to_height-EndsDay :
      (day : Time)
      → 0 < earliest
      → earliest ≤ latest
      → latest < 4611686018427387904
      → EndsDay
          (next_day day)
          (resolve_to_height (some (earliest, latest)) (pruned_node earliest time) (date day))
  unfolding resolve_to_height
  resolve_to_height-EndsDay day pos order small =
      let known : ltb 0 earliest ≡ true = ground arith in
      rw known (
        last_of_day-EndsDay (next_day day) _ (
          find-Finds earliest time (next_day day) latest mono latest earliest latest
            (order, omega arith, small, omega arith, inl refl)))

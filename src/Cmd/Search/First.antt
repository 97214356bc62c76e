-- ===== src/Cmd/Search/First.antt =====
-- The height that the search finds.
use pocket_settlement_monito.Prelude.{
  ℕ, zero, suc, ◌+◌, ◌-◌, ◌≤◌, ◌<◌, ◌≡◌, refl, ◌⊎◌, inl, inr, true, false, Option, none, some, ltb,
  if◌then◌else◌, arith, Bool-cases,
}
use pocket_settlement_monito.Prelude.Exec.{rpc, Result, ok, err}
use pocket_settlement_monito.Store.Models.{Time}
use pocket_settlement_monito.Cmd.Search.{
  Answer, header, lowest, narrow, middle, find_first_block_at_or_after,
}

-- A node that holds the blocks from `base` on, with these times.
abbrev pub pruned_node : ℕ → (ℕ → Time) → ℕ → Answer
pruned_node base time h = if ltb h base then lowest base else header (time h)

module _ (base : ℕ) (time : ℕ → Time) (target : Time) (top : ℕ)
    (mono : (a b : ℕ) → a ≤ b → time a ≤ time b) where
  -- What the search between these bounds returns.
  abbrev pub Finds : ℕ → ℕ → Option (Result ℕ) → Type 0
  Finds low high out =
      (r : ℕ) × (out ≡ some (ok r))
      × (low ≤ r)
      × (r ≤ high)
      × ((r ≡ top) ⊎ (target ≤ time r))
      × ((h : ℕ) → low ≤ h → base ≤ h → h < r → time h < target)

  -- The loop has ended.
  done-Finds :
      (low high : ℕ)
      → low ≤ high
      → ltb low high ≡ false
      → (high ≡ top) ⊎ (target ≤ time high)
      → Finds low high (some (ok low))
  done-Finds low high order met end =
      let same : high ≡ low = ground arith in
      (low, refl, omega arith, order, rw (← same) end, λ h from held under. absurd (ground arith))

  abbrev search : ℕ → ℕ → ℕ → Option (Result ℕ)
  search = find_first_block_at_or_after (pruned_node base time) target

  -- Bounds that the search may start from, with this fuel.
  abbrev IsOpen : ℕ → ℕ → ℕ → Type 0
  IsOpen fuel low high =
      (low ≤ high)
      × (base ≤ high)
      × (high < 4611686018427387904)
      × (high - low ≤ fuel)
      × ((high ≡ top) ⊎ (target ≤ time high))

  -- One turn, where the rest of the search is right.
  turn-Finds :
      (fuel low mid high : ℕ)
      → ((l u : ℕ) → IsOpen fuel l u → Finds l u (search fuel l u))
      → IsOpen (suc fuel) low high
      → low ≤ mid
      → mid < high
      → Finds low high
          (elim (narrow (pruned_node base time) target (pruned_node base time mid) low mid high) [
            | none ↦ some (err rpc)
            | some (l, u) ↦ search fuel l u
          ])
  unfolding narrow
  turn-Finds fuel low mid high rest (order, held, small, enough, end) above below =
      elim (Bool-cases (ltb mid base)) [
        | inl pruned ↦
            let raised : ltb low base ≡ true = ground arith in
            let (r, e, from, to, last, before) =
              rest base high (held, held, small, ground arith, end) in
            rw (pruned, raised) (r, e, ground arith, to, last, λ h _ b u. before h b b u)
        | inr kept ↦ elim (Bool-cases (ltb (time mid) target)) [
          | inl early ↦
              let (r, e, from, to, last, before) =
                rest (mid + 1) high (omega arith, held, small, omega arith, end) in
              rw (kept, early)
                (
                  r,
                  e,
                  omega arith,
                  to,
                  last,
                  λ h _ b u. elim (Bool-cases (ltb mid h)) [
                    | inl later ↦ before h (ground arith) b u
                    | inr sooner ↦ ground (arith, mono h mid)
                  ],
                )
          | inr late ↦
              let (r, e, from, to, last, before) =
                rest low mid (above, ground arith, omega arith, omega arith, inr (ground arith)) in
              rw (kept, late) (r, e, from, omega arith, last, before)
        ]
      ]

  pub find-Finds :
      (fuel low high : ℕ) → IsOpen fuel low high → Finds low high (search fuel low high)
  unfolding find_first_block_at_or_after
  find-Finds zero low high (order, held, small, enough, end) =
      let met : ltb low high ≡ false = ground arith in rw met (done-Finds low high order met end)
  find-Finds (suc fuel) low high (order, held, small, enough, end) =
      elim (Bool-cases (ltb low high)) [
        | inl more ↦ rw more (
            turn-Finds fuel low (middle (pruned_node base time) target low high) high
              (find-Finds fuel) (order, held, small, enough, end) (ground arith) (ground arith))
        | inr met ↦ rw met (done-Finds low high order met end)
      ]

  -- On a node whose blocks start at `base` and have times that do not decrease, with heights below
  -- 2 ^ 62: the search from `low` to `top` ends after at most as many turns as there are heights
  -- between them and returns a height `r` of the range. A block of the range that the node holds lies
  -- below `r` if it is before the target; from `r` on the blocks are at or after the target, or `r` is
  -- `top`, where every block of the range below it is before the target.
  pub find_first_block_at_or_after_lem :
      (fuel low h : ℕ)
      → low ≤ h
      → h ≤ top
      → base ≤ h
      → top < 4611686018427387904
      → top - low ≤ fuel
      → (r : ℕ) × (find_first_block_at_or_after (pruned_node base time) target fuel low top
          ≡ some (ok r))
        × (low ≤ r)
        × (r ≤ top)
        × (((h < r) × (time h < target)) ⊎ ((r ≤ h) × ((r ≡ top) ⊎ (target ≤ time h))))
  find_first_block_at_or_after_lem fuel low h from to held small enough =
      let (r, e, above, below, last, before) =
        find-Finds fuel low top (omega arith, omega arith, small, enough, inl refl) in
      (
        r,
        e,
        above,
        below,
        elim (Bool-cases (ltb h r)) [
          | inl under ↦ inl (ground arith, before h from held (ground arith))
          | inr over ↦ inr (
            ground arith,
            elim last [ inl end ↦ inl end | inr late ↦ inr (ground (arith, mono r h)) ],
          )
        ],
      )

-- ===== src/Cmd/Backfill/Fetch.antt =====
-- The retries of a fetch.
use pocket_settlement_monito.Prelude.{
  ℕ, zero, suc, ◌+◌, ◌≤◌, ◌≡◌, refl, inl, inr, Bool, false, Option, none, some, arith, ◌==◌, ==_iff,
  Bool-cases, if◌then◌else◌,
}
use pocket_settlement_monito.Prelude.Exec.{ok, err, context}
use pocket_settlement_monito.Cmd.Backfill.{Block, fetch_from, fetch}

module _ (answer : ℕ → ℕ → Option Block) (cancelled : ℕ → ℕ → Bool) (h : ℕ)
    (on : (j : ℕ) → cancelled h j ≡ false) (k : ℕ) (b : Block) (brings : answer h k ≡ some b) where
  fetch_from_lem :
      (more first : ℕ)
      → first ≤ k
      → k ≤ first + more
      → (b' : Block) × (fetch_from answer cancelled more h first ≡ ok b')
  unfolding fetch_from
  fetch_from_lem zero first low high =
      let same : first ≡ k = omega arith in
      let here : answer h first ≡ some b = rw same brings in rw (fetch_from, here) (b, refl)
  fetch_from_lem (suc more) first low high = elim (Bool-cases (first == k)) [
    | inl now ↦
        let here : answer h first ≡ some b = rw ((==_iff first k).0 now) brings in
        rw (fetch_from, here) (b, refl)
    | inr later ↦
        next (answer h first) (fetch_from_lem more (suc first) (ground arith) (omega arith))
  ]
    where
      next :
          (a : Option Block)
          → (b' : Block) × (fetch_from answer cancelled more h (suc first) ≡ ok b')
          → (b' : Block) × (elim a [
            | none ↦
                if cancelled h (suc first)
                then err context
                else fetch_from answer cancelled more h (suc first)
            | some block ↦ ok block
          ]
              ≡ ok b')
      next none rest = rw (on (suc first)) rest
      next (some block) rest = (block, refl)

  -- As long as the context does not end, a height is fetched if one of its first eleven attempts, counted
  -- from 0, brings a block.
  pub fetch_lem : k ≤ 10 → (b' : Block) × (fetch answer cancelled h ≡ ok b')
  fetch_lem bound = fetch_from_lem 10 0 (omega arith) (omega arith)

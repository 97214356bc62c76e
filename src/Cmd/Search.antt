-- ===== src/Cmd/Search.antt =====
-- cmd/height_resolver.go: findFirstBlockAtOrAfter. The node's answer to a header query is an argument,
-- the error's text taken apart already: `lowest` is an error that names the lowest height. Heights are
-- not negative, and their sum is taken to be below 2 ^ 63. The fuel is a bound on the number of turns; `none` is a loop that has not ended.
pub mod First
use pocket_settlement_monito.Prelude.{
  ℕ, zero, suc, ◌+◌, ◌/◌, ◌%◌, Bool, true, false, Option, none, some, ltb, if◌then◌else◌,
}
use pocket_settlement_monito.Prelude.Words.{two64}
use pocket_settlement_monito.Prelude.Exec.{Error, rpc, Result, ok, err}
use pocket_settlement_monito.Store.Models.{Time}

pub data Answer : Type 0 where
  header : Time → Answer
  lowest : ℕ → Answer
  failed : Answer

module _ (query_header : ℕ → Answer) (target : Time) where
  -- The new bounds, or the error of the query.
  unfoldable pub narrow : Answer → (low mid high : ℕ) → Option (ℕ × ℕ)
  narrow (header time) low mid high = some (if ltb time target then (mid + 1, high) else (low, mid))
  narrow (lowest parsed) low mid high = if ltb low parsed then some (parsed, high) else none
  narrow failed low mid high = none

  abbrev pub middle : ℕ → ℕ → ℕ
  middle low high = ((low + high) % two64) / 2

  unfoldable pub find_first_block_at_or_after : ℕ → ℕ → ℕ → Option (Result ℕ)
  find_first_block_at_or_after zero low high = if ltb low high then none else some (ok low)
  find_first_block_at_or_after (suc fuel) low high =
      if ltb low high
      then elim (narrow (query_header (middle low high)) low (middle low high) high) [
        | none ↦ some (err rpc)
        | some (low', high') ↦ find_first_block_at_or_after fuel low' high'
      ]
      else some (ok low)

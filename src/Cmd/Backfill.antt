-- ===== src/Cmd/Backfill.antt =====
-- cmd/backfiller.go: RunIfNeeded, the range that it chooses and its loop over the blocks. Heights are
-- not negative and less than 2 ^ 63. The node's answers and the context's end are arguments: `answer h k`
-- is what attempt `k` at height `h` brings, `cancelled h k` says whether the context has ended when the
-- loop looks at it there (0 before the first attempt, 11 in
-- the wait after the block, false there if there is no delay). The gauges, the operations notifier and the
-- recalculation of the summaries afterwards are not modelled.
pub mod Range
pub mod Blocks
pub mod Fetch
use pocket_settlement_monito.Prelude.{
  ℕ, zero, suc, ◌+◌, ◌-◌, ◌==◌, ltb, Bool, true, false, Option, none, some, List, [], ◌∷◌,
  if◌then◌else◌, ◌&&◌,
}
use pocket_settlement_monito.Prelude.Words.{Int64}
use pocket_settlement_monito.Prelude.Exec.{Error, rpc, context, Result, ok, err, Exec, ◌>>=◌, ◌>>◌}
use pocket_settlement_monito.Store.Models.{Time}
use pocket_settlement_monito.Subscriber.Types.{SettlementEvent}
use pocket_settlement_monito.Processor.Collector.{BlockProcessor}

-- The switch on the last processed and the requested height; `none` is its early return.
unfoldable pub start_height : ℕ → ℕ → Option ℕ
start_height last requested =
    if last == 0 && requested == 0
    then none
    else if last == 0 && ltb 0 requested
    then some requested
    else if ltb 0 requested && ltb requested last
    then some requested
    else some (last + 1)

-- The first height and the number of blocks; `none` where there is no gap.
abbrev pub gap_to : ℕ → Option ℕ → Option (ℕ × ℕ)
gap_to current none = none
gap_to current (some from) = if ltb current from then none else some (from, current - from + 1)

unfoldable pub backfill_range : ℕ → ℕ → ℕ → Option (ℕ × ℕ)
backfill_range last requested current = gap_to current (start_height last requested)

abbrev pub Block : Type 0
Block = Time × List SettlementEvent

module _ (answer : ℕ → ℕ → Option Block) (cancelled : ℕ → ℕ → Bool) where
  -- Attempt `k`, with this many after it; `if attempt == 10 { return … }`.
  unfoldable pub fetch_from : ℕ → ℕ → ℕ → Result Block
  fetch_from zero h k = elim (answer h k) [ none ↦ err rpc | some block ↦ ok block ]
  fetch_from (suc more) h k =
      let rest = fetch_from more h (suc k) in
      elim (answer h k) [
        | none ↦ if cancelled h (suc k) then err context else rest
        | some block ↦ ok block
      ]

  abbrev pub fetch : ℕ → Result Block
  fetch h = fetch_from 10 h 0

  module _ {S : Type 0} (p : BlockProcessor S) where
    abbrev pub fetched : ℕ → Result Block → Exec S Unit
    fetched h (ok (ts, events)) s = p.process_block h ts events false s
    fetched h (err e) s = (err e, s)

    -- `if b.delay > 0 { select … }`
    abbrev pub wait : ℕ → Exec S Unit
    wait h s = if cancelled h 11 then (err context, s) else (ok tt, s)

    abbrev pub backfill_block : ℕ → Exec S Unit
    backfill_block h s =
        if cancelled h 0 then (err context, s) else (fetched h (fetch h) >> wait h) s

    -- `for h := fromHeight; h <= toHeight; h++`, for a number of blocks.
    unfoldable pub backfill : ℕ → ℕ → Exec S Unit
    backfill zero h = λ s. (ok tt, s)
    backfill (suc more) h = backfill_block h >> backfill more (suc h)

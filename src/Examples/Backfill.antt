-- ===== src/Examples/Backfill.antt =====
-- A backfill of a few blocks, from a node that answers at the third attempt.
use pocket_settlement_monito.Prelude.{
  ℕ, ◌+◌, ◌≡◌, refl, Bool, true, false, Option, none, some, List, [], ltb, arith, if◌then◌else◌,
}
use pocket_settlement_monito.Prelude.Exec.{Error, ok, err}
use pocket_settlement_monito.Processor.Collector.{BlockProcessor}
use pocket_settlement_monito.Cmd.Backfill.{Block, fetch}
use pocket_settlement_monito.Cmd.Backfill.Fetch.{fetch_lem}
use pocket_settlement_monito.Cmd.Recover.{SummaryReporter, Recovery, announce, backfill_gap}
use pocket_settlement_monito.Cmd.Calls.{Asked, noting, noting_reporter}
use pocket_settlement_monito.Cmd.Recover.Gap.{Ends, gap_last, backfill_gap-Ends}

abbrev slow_node : ℕ → ℕ → Option Block
slow_node h k = if ltb k 2 then none else some (h, [])

abbrev never : ℕ → ℕ → Bool
never h k = false

-- It fails from height 104 on.
abbrev failing : BlockProcessor Unit
failing = record {
  process_block = λ h ts es is_live s. (if ltb h 104 then ok tt else err Error.store, s);
}

fetch_lem_example : (b : Block) × (fetch slow_node never 101 ≡ ok b)
fetch_lem_example = fetch_lem slow_node never 101 (λ j. refl) 2 (101, []) refl (ground arith)

abbrev idle_reporter : SummaryReporter (Unit {0})
idle_reporter = record { recalculate_summaries_for_range = λ from to s. (err Error.store, s) }

abbrev connected_again : Recovery (Unit {0} × List Asked)
connected_again = record { state = (tt, []); metrics = []; ops = [] }

-- From a wall clock two seconds after each block.
backfill_gap-Ends_example :
    Ends slow_node
      (λ h. h + 2)
      10
      failing
      idle_reporter
      101
      105
      5
      101
      (gap_last slow_node (λ h. h + 2) 10 1 101 0, gap_last slow_node (λ h. h + 2) 10 5 101 0)
      (announce 101 105 connected_again)
      (backfill_gap slow_node
        (λ h. h + 2)
        10
        (noting failing)
        (noting_reporter idle_reporter)
        101
        105
        true
        connected_again)
backfill_gap-Ends_example =
    backfill_gap-Ends slow_node (λ h. h + 2) 10 failing idle_reporter 101 105 (omega arith) true
      connected_again

-- ===== src/Examples/Commands.antt =====
-- A backfill at the start of the monitor and one from the command line.
use pocket_settlement_monito.Prelude.{
  ℕ, ◌+◌, ◌-◌, ◌≤◌, ◌≡◌, refl, Bool, true, false, ◌*◌, Option, none, some, List, [], ltb,
  if◌then◌else◌,
}
use pocket_settlement_monito.Prelude.Exec.{Error, ok, err}
use pocket_settlement_monito.Processor.Collector.{BlockProcessor}
use pocket_settlement_monito.Cmd.Backfill.{Block, backfill_range, start_height}
use pocket_settlement_monito.Cmd.Resolve.{resolved}
use pocket_settlement_monito.Cmd.Calls.{Asked, noting, noting_reporter}
use pocket_settlement_monito.Cmd.Recover.{SummaryReporter, Recovery}
use pocket_settlement_monito.Cmd.Startup.{run_if_needed}
use pocket_settlement_monito.Cmd.Startup.Ends.{Finished, run_if_needed-Finished}
use pocket_settlement_monito.Cmd.Command.{run_backfill}
use pocket_settlement_monito.Cmd.Command.Ends.{CommandEnds, noting_result, run_backfill-CommandEnds}

-- It answers at the second attempt.
abbrev node : ℕ → ℕ → Option Block
node h k = if ltb k 1 then none else some (60 * h, [])

abbrev never : ℕ → ℕ → Bool
never h k = false

abbrev counting : BlockProcessor ℕ
counting = record { process_block = λ h ts events is_live s. (ok tt, s + 1) }

abbrev failing_reporter : SummaryReporter ℕ
failing_reporter = record { recalculate_summaries_for_range = λ from to s. (err Error.store, s) }

abbrev idle : Recovery (ℕ × List Asked)
idle = record { state = (0, []); metrics = []; ops = [] }

gap : backfill_range 101 200 104 ≡ some (102, 3)
unfolding backfill_range start_height
gap = refl

run_if_needed-Finished_example :
    (1 ≤ 3)
    × (102 + 3 - 1 ≡ 104)
    × Finished node never counting failing_reporter 102 3 idle (
        run_if_needed node never
          (noting counting)
          (noting_reporter failing_reporter)
          true
          (ok 101)
          (some 104)
          (some (resolved 200))
          idle)
run_if_needed-Finished_example =
    run_if_needed-Finished node never counting failing_reporter 101 200 104 102 3 idle gap

run_backfill-CommandEnds_example :
    CommandEnds node never (resolved 102) (resolved 104) (some 110) [] (
      run_backfill node never
        (λ f. noting counting)
        (ok tt)
        (resolved 102)
        (resolved 104)
        (some 110)
        (ok [])
        (noting_result (ok failing_reporter))
        (0, []))
run_backfill-CommandEnds_example =
    run_backfill-CommandEnds node never (λ f. counting) (resolved 102) (resolved 104) (some 110) 0
      [] (ok tt) (ok []) (ok failing_reporter)

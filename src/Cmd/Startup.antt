-- ===== src/Cmd/Startup.antt =====
-- cmd/backfiller.go: RunIfNeeded as a whole, around the range and the loop of Cmd/Backfill.
pub mod Ends
use pocket_settlement_monito.Prelude.{
  ℕ, ◌+◌, ◌-◌, Bool, true, false, Option, none, some, if◌then◌else◌,
}
use pocket_settlement_monito.Prelude.Exec.{Error, store, rpc, invalid_input, Result, ok, err, Exec}
use pocket_settlement_monito.Processor.Collector.{BlockProcessor}
use pocket_settlement_monito.Cmd.Backfill.{Block, backfill_range, backfill}
use pocket_settlement_monito.Cmd.Resolve.{Resolved, resolved, refused}
use pocket_settlement_monito.Cmd.Recover.{
  SummaryReporter, Recovery, set_remaining, announce, complete,
}
use pocket_settlement_monito.Cmd.Timed.{Times, timed}

module _ {S : Type 0} where
  -- `b.metrics.SetBackfillBlocksRemaining(float64(toHeight - h))`, after a block without an error.
  abbrev pub after_process : ℕ → ℕ → Result (Unit {0}) → Recovery S → Recovery S
  after_process to h (err e) r = r
  after_process to h (ok _) r = set_remaining (to - h) r

  abbrev pub gauged : ℕ → BlockProcessor S → BlockProcessor (Recovery S)
  gauged to p = record {
    process_block = λ h ts es live r.
        let (result, s) = p.process_block h ts es live r.state in
        (result, after_process to h result (record r { state = s }));
  }

  abbrev pub finish :
      SummaryReporter S
      → ℕ
      → ℕ
      → Result (Unit {0}) × (Recovery S × Times)
      → Result (Unit {0}) × Recovery S
  finish reporter from to (err e, (r, times)) = (err e, r)
  finish reporter from to (ok _, (r, (first, last))) =
      (ok tt, complete reporter from to first last r)

module _ (answer : ℕ → ℕ → Option Block) (cancelled : ℕ → ℕ → Bool) {S : Type 0}
    (p : BlockProcessor S) (reporter : SummaryReporter S) where
  -- From the gap's detection on, for a first height and a number of blocks; `none` is no gap.
  unfoldable pub run_range : Option (ℕ × ℕ) → Exec (Recovery S) Unit
  run_range none r = (ok tt, r)
  run_range (some (from, n)) r =
      let to = from + n - 1 in
      finish reporter from to
        (backfill answer cancelled (timed from (gauged to p)) n from (announce from to r, (0, 0)))

  -- The requested height; `none` is an empty flag, and else what the flag resolves to.
  abbrev pub run_requested : ℕ → ℕ → Option Resolved → Exec (Recovery S) Unit
  run_requested last current none = run_range (backfill_range last 0 current)
  run_requested last current (some (resolved from)) = run_range (backfill_range last from current)
  run_requested last current (some (refused e)) = λ r. (err invalid_input, r)

  -- Whether the client was made, the store's last height, the chain's height, and the flag.
  unfoldable pub run_if_needed :
      Bool → Result ℕ → Option ℕ → Option Resolved → Exec (Recovery S) Unit
  run_if_needed false last current flag r = (err rpc, r)
  run_if_needed true (err e) current flag r = (err store, r)
  run_if_needed true (ok last) none flag r = (err rpc, r)
  run_if_needed true (ok last) (some current) flag r = run_requested last current flag r

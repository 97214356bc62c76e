-- ===== src/Cmd/Command.antt =====
-- cmd/cmd_backfill.go: runBackfill. What the flags resolve to is Cmd/Resolve; the processor is made for a
-- filter, the reporter may fail to be made.
pub mod Ends
use pocket_settlement_monito.Prelude.{
  ℕ, ◌+◌, ◌-◌, String, Bool, true, false, Option, none, some, List, ltb, if◌then◌else◌,
}
use pocket_settlement_monito.Prelude.Exec.{
  Error, store, rpc, invalid_input, Result, ok, err, Exec, ◌>>=◌, ◌>>◌,
}
use pocket_settlement_monito.Processor.Collector.{BlockProcessor}
use pocket_settlement_monito.Processor.Filter.{SupplierFilter, new_supplier_filter}
use pocket_settlement_monito.Cmd.Backfill.{Block, backfill}
use pocket_settlement_monito.Cmd.Resolve.{Resolved, resolved, refused, ResolveError, query_failed}
use pocket_settlement_monito.Cmd.Recover.{SummaryReporter}
use pocket_settlement_monito.Cmd.Timed.{Times, timed}

abbrev pub of_resolved : Resolved → Result ℕ
of_resolved (resolved h) = ok h
of_resolved (refused (query_failed e)) = err e
of_resolved (refused _) = err invalid_input

-- The query of the chain's height, and `if toHeight > currentHeight`.
abbrev pub below_latest : ℕ → Option ℕ → Result (Unit {0})
below_latest to none = err rpc
below_latest to (some latest) = if ltb latest to then err invalid_input else ok tt

abbrev pub check_range : ℕ → ℕ → Option ℕ → Result (Unit {0})
check_range from to current = if ltb to from then err invalid_input else below_latest to current

abbrev pub give : {S A : Type 0} → Result A → Exec S A
give result s = (result, s)

module _ (answer : ℕ → ℕ → Option Block) (cancelled : ℕ → ℕ → Bool) {S : Type 0} where
  -- After the loop: the summaries, whose error is logged.
  abbrev pub summarize : SummaryReporter S → Result (Unit {0}) × (S × Times) → Result (Unit {0}) × S
  summarize reporter (err e, (s, times)) = (err e, s)
  summarize reporter (ok _, (s, (first, last))) =
      (ok tt, (reporter.recalculate_summaries_for_range first last s).1)

  abbrev pub fill : BlockProcessor S → SummaryReporter S → ℕ → ℕ → Exec S Unit
  fill p reporter from to s =
      summarize reporter (backfill answer cancelled (timed from p) (to + 1 - from) from (s, (0, 0)))

  -- The error, if any, of the store and of the client, the flags, the chain's height, the addresses of the
  -- configuration, and the reporter.
  unfoldable pub run_backfill :
      (SupplierFilter → BlockProcessor S)
      → Result (Unit {0})
      → Resolved
      → Resolved
      → Option ℕ
      → Result (List String)
      → Result (SummaryReporter S)
      → Exec S Unit
  run_backfill processor opened from_flag to_flag current addresses reporter s =
      (give opened >>= λ _. give (of_resolved from_flag) >>= λ from.
      give (of_resolved to_flag) >>= λ to. give (check_range from to current) >>= λ _.
      give addresses >>= λ addrs.
      give reporter >>= λ rep. fill (processor (new_supplier_filter addrs)) rep from to)
        s

-- ===== src/Cmd/Recover.antt =====
-- cmd/backfiller.go: BackfillRange, which recovers a gap that the subscriber has found. The node's answers
-- are as in Cmd/Backfill, where no context ends; `now h` is the wall clock after the block of height `h`
-- has come, `connected` says whether the RPC client could be made and started. The processor and the
-- reporter are interfaces over a state of their own; the operations notifier is the list of its calls.
-- Heights are not negative and less than 2 ^ 63, and the gap does not begin after its end.
pub mod Gap
use pocket_settlement_monito.Prelude.{
  ℕ, zero, suc, ◌+◌, ◌-◌, Bool, true, false, ◌&&◌, leb, ltb, List, [], ◌∷◌, ◌++◌, Option,
  if◌then◌else◌,
}
use pocket_settlement_monito.Prelude.Exec.{Error, Result, ok, err, Exec}
use pocket_settlement_monito.Store.Models.{Time}
use pocket_settlement_monito.Metrics.{
  Registry, increment_gap_detected, set_backfill_blocks_remaining,
}
use pocket_settlement_monito.Processor.Collector.{BlockProcessor}
use pocket_settlement_monito.Cmd.Backfill.{Block, fetch}

pub record SummaryReporter (S : Type 0) : Type 0 where
  pub recalculate_summaries_for_range : Time → Time → Exec S Unit

-- The operations notifier's calls.
pub data OpsMessage : Type 0 where
  gap_detected : (from to gap : ℕ) → OpsMessage
  backfill_started : (from to : ℕ) → OpsMessage
  backfill_completed : (from to : ℕ) → OpsMessage

pub record Recovery (S : Type 0) : Type 0 where
  pub state : S
  pub metrics : Registry
  pub ops : List OpsMessage

module _ {S : Type 0} where
  abbrev pub set_remaining : ℕ → Recovery S → Recovery S
  set_remaining n r = record r { metrics = set_backfill_blocks_remaining n r.metrics }

  -- `b.metrics.IncrementGapDetected(true)` and what follows it.
  abbrev pub announce : ℕ → ℕ → Recovery S → Recovery S
  announce from to r = record r {
    metrics = set_backfill_blocks_remaining (to + 1 - from) (increment_gap_detected true r.metrics);
    ops = r.ops ++ (gap_detected from to (to + 1 - from) ∷ backfill_started from to ∷ []);
  }

-- The end of the loop: the gauge, the summaries from the first block's time to the last one's, whose
-- error is logged, and the notification.
abbrev pub complete :
    {S : Type 0} → SummaryReporter S → ℕ → ℕ → Time → Time → Recovery S → Recovery S
complete reporter from to first last r =
    let (_, s) = reporter.recalculate_summaries_for_range first last r.state in
    record {
      state = s;
      metrics = set_backfill_blocks_remaining 0 r.metrics;
      ops = r.ops ++ backfill_completed from to ∷ [];
    }

module _ (answer : ℕ → ℕ → Option Block) (now : ℕ → Time) (live_catchup_threshold : ℕ) where
  abbrev pub fetch_block : ℕ → Result Block
  fetch_block = fetch answer (λ h k. false)

  -- `b.liveCatchupThreshold > 0 && time.Since(blockTime) <= b.liveCatchupThreshold`
  abbrev pub catches_up : ℕ → Time → Bool
  catches_up h ts = ltb 0 live_catchup_threshold && leb (now h) (ts + live_catchup_threshold)

  module _ {S : Type 0} (p : BlockProcessor S) (reporter : SummaryReporter S) (from to : ℕ) where
    -- What comes after a block, by the error of ProcessBlock.
    abbrev pub after_block :
        (Recovery S → Recovery S) → ℕ → Result (Unit {0}) → Recovery S → Recovery S
    after_block rest h (err e) r = set_remaining 0 r
    after_block rest h (ok _) r = rest (set_remaining (to - h) r)

    -- A block that was fetched, or not.
    abbrev pub recover_block :
        (Time → Recovery S → Recovery S) → ℕ → Result Block → Recovery S → Recovery S
    recover_block rest h (err e) r = set_remaining 0 r
    recover_block rest h (ok (ts, events)) r =
        let (result, s) = p.process_block h ts events (catches_up h ts) r.state in
        after_block (rest ts) h result (record r { state = s })

    -- The loop, for a number of blocks from `h` on; the first block's time is known after it.
    unfoldable pub recover_from : ℕ → ℕ → Time → Time → Recovery S → Recovery S
    recover_from zero h first last r = complete reporter from to first last r
    recover_from (suc more) h first last r =
        recover_block (λ ts. recover_from more (suc h) first ts) h (fetch_block h) r

    -- `if h == fromHeight { firstBlockTime = blockTime }`
    abbrev pub recover_first : ℕ → Recovery S → Recovery S
    recover_first zero r = complete reporter from to 0 0 r
    recover_first (suc more) r =
        recover_block (λ ts. recover_from more (suc from) ts ts) from (fetch_block from) r

    unfoldable pub backfill_gap : Bool → Recovery S → Recovery S
    backfill_gap connected r =
        if connected
        then recover_first (to + 1 - from) (announce from to r)
        else set_remaining 0 (announce from to r)

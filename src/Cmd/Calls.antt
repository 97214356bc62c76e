-- ===== src/Cmd/Calls.antt =====
-- What the processor and the reporter are asked to do, by a loop over blocks.
use pocket_settlement_monito.Prelude.{ℕ, zero, suc, Bool, List, [], ◌∷◌, ◌++◌}
use pocket_settlement_monito.Prelude.Exec.{Result, ok, err}
use pocket_settlement_monito.Store.Models.{Time}
use pocket_settlement_monito.Subscriber.Types.{SettlementEvent}
use pocket_settlement_monito.Processor.Collector.{BlockProcessor}
use pocket_settlement_monito.Cmd.Backfill.{Block}
use pocket_settlement_monito.Cmd.Recover.{SummaryReporter}

pub data Asked : Type 0 where
  processed : (height : ℕ) → Time → List SettlementEvent → (is_live : Bool) → Asked
  recalculated : (from to : Time) → Asked

unfoldable pub asked_heights : List Asked → List ℕ
asked_heights [] = []
asked_heights (processed h ts es live ∷ asked) = h ∷ asked_heights asked
asked_heights (recalculated from to ∷ asked) = asked_heights asked

module _ {S : Type 0} where
  abbrev pub noting : BlockProcessor S → BlockProcessor (S × List Asked)
  noting p = record {
    process_block = λ h ts es live (s, asked).
        let (r, s') = p.process_block h ts es live s in
        (r, (s', asked ++ processed h ts es live ∷ []));
  }

  abbrev pub noting_reporter : SummaryReporter S → SummaryReporter (S × List Asked)
  noting_reporter reporter = record {
    recalculate_summaries_for_range = λ from to (s, asked).
        let (r, s') = reporter.recalculate_summaries_for_range from to s in
        (r, (s', asked ++ recalculated from to ∷ []));
  }

-- What a loop that fetches so asks for its blocks.
module _ (fetch_at : ℕ → Result Block) where
  module _ (live : ℕ → Time → Bool) where
    abbrev calls_of : Result Block → ℕ → List Asked → List Asked
    calls_of (err e) h rest = []
    calls_of (ok (ts, events)) h rest = processed h ts events (live h ts) ∷ rest

    -- The calls for the first `n` blocks from `h` on, up to the first one that cannot be fetched.
    unfoldable pub block_calls : ℕ → ℕ → List Asked
    block_calls zero h = []
    block_calls (suc n) h = calls_of (fetch_at h) h (block_calls n (suc h))

  abbrev pub time_or : Result Block → (Time → Time) → Time → Time
  time_or (err e) rest last = last
  time_or (ok (ts, events)) rest last = rest ts

  -- The time of the last of `n` blocks from `h` on.
  unfoldable pub last_time : ℕ → ℕ → Time → Time
  last_time zero h last = last
  last_time (suc n) h last = time_or (fetch_at h) (last_time n (suc h)) last

-- ===== src/Cmd/Startup/Ends.antt =====
-- How RunIfNeeded ends.
use mathlib.Core.List.{append_assoc}
use pocket_settlement_monito.Prelude.{
  ℕ, ◌+◌, ◌-◌, ◌≤◌, ◌≡◌, refl, ap, ◌∙◌, ◌⊎◌, inl, inr, Bool, true, Option, some, List, [], ◌∷◌,
  ◌++◌,
}
use pocket_settlement_monito.Prelude.Exec.{Error, Result, ok, err}
use pocket_settlement_monito.Store.Models.{Time}
use pocket_settlement_monito.Subscriber.Types.{SettlementEvent}
use pocket_settlement_monito.Processor.Collector.{BlockProcessor}
use pocket_settlement_monito.Metrics.{Registry, set_backfill_blocks_remaining}
use pocket_settlement_monito.Cmd.Backfill.{Block, backfill_range, fetch, backfill}
use pocket_settlement_monito.Cmd.Backfill.Blocks.{heights_from}
use pocket_settlement_monito.Cmd.Backfill.Range.{backfill_range-ends}
use pocket_settlement_monito.Cmd.Resolve.{resolved}
use pocket_settlement_monito.Cmd.Calls.{
  asked_heights, Asked, processed, recalculated, noting, noting_reporter, last_time,
}
use pocket_settlement_monito.Cmd.Recover.{SummaryReporter, Recovery, announce, backfill_completed}
use pocket_settlement_monito.Cmd.Timed.{Times, timed, calls, first_time_lem, Asks, backfill-Asks}
use pocket_settlement_monito.Cmd.Startup.{after_process, gauged, finish, run_range, run_if_needed}

after_process-state :
    {S : Type 0} (to h : ℕ) (result : Result (Unit {0})) (r : Recovery S)
    → ((after_process to h result r).state ≡ r.state) × ((after_process to h result r).ops ≡ r.ops)
after_process-state to h (err e) r = (refl, refl)
after_process-state to h (ok _) r = (refl, refl)

module _ (answer : ℕ → ℕ → Option Block) (cancelled : ℕ → ℕ → Bool) {S : Type 0}
    (p : BlockProcessor S) (reporter : SummaryReporter S) where
  abbrev pub Noted : Type 0
  Noted = Recovery (S × List Asked)

  -- All `n` blocks from `from` on were processed, and the summaries recalculated between the times of the
  -- first and the last one; or some were, and an error came.
  abbrev pub Finished : ℕ → ℕ → Noted → Result (Unit {0}) × Noted → Type 0
  Finished from n r (result, out) =
      let to = from + n - 1 in
      let all = calls answer cancelled from n from in
      let time : ℕ → Time = λ k. last_time (fetch answer cancelled) k from 0 in
      ((result ≡ ok tt)
        × (asked_heights all ≡ heights_from from n)
        × (out.state.1 ≡ r.state.1 ++ (all ++ recalculated (time 1) (time n) ∷ []))
        × (out.ops ≡ (announce from to r).ops ++ backfill_completed from to ∷ [])
        × ((m : Registry) × (out.metrics ≡ set_backfill_blocks_remaining 0 m)))
      ⊎ ((e : Error) × (result ≡ err e)
          × (out.ops ≡ (announce from to r).ops)
          × (k : ℕ) × (k ≤ n)
          × (out.state.1 ≡ r.state.1 ++ calls answer cancelled from k from))

  gauged_notes :
      (to h : ℕ) (ts : Time) (es : List SettlementEvent) (live : Bool) (m : Noted)
      → ((gauged to (noting p)).process_block h ts es live m).1.state.1
        ≡ m.state.1 ++ processed h ts es live ∷ []
  gauged_notes to h ts es live m =
      let out = (noting p).process_block h ts es live m.state in
      ap (λ st. st.1) (after_process-state to h out.0 (record m { state = out.1 })).0

  gauged_keeps :
      (to h : ℕ) (ts : Time) (es : List SettlementEvent) (live : Bool) (m : Noted)
      → ((gauged to (noting p)).process_block h ts es live m).1.ops ≡ m.ops
  gauged_keeps to h ts es live m =
      let out = (noting p).process_block h ts es live m.state in
      (after_process-state to h out.0 (record m { state = out.1 })).1

  finish-Finished :
      (from n : ℕ) (r : Noted) (result : Result (Unit {0})) (out : Noted) (t : Times)
      → 1 ≤ n
      → Asks answer cancelled from
          (gauged (from + n - 1) (noting p))
          (λ m. m.state.1)
          (λ m. m.ops)
          (gauged_notes (from + n - 1))
          (gauged_keeps (from + n - 1))
          n
          from
          (announce from (from + n - 1) r, (0, 0))
          (result, (out, t))
      → Finished from n r (finish (noting_reporter reporter) from (from + n - 1) (result, (out, t)))
  finish-Finished from n r result out t gap (kept, inr (e, bad, k, low, asked)) =
      rw bad (inr (e, refl, kept, k, low, asked))
  finish-Finished from n r result out t gap (kept, inl (fine, asked, all, times)) =
      let end : Time × Time = (
        last_time (fetch answer cancelled) 1 from 0,
        last_time (fetch answer cancelled) n from 0,
      ) in
      let same : t ≡ end =
        times
        ∙ ap (λ f. (f, last_time (fetch answer cancelled) n from 0))
            (first_time_lem answer cancelled from n 0 gap) in
      rw (fine, same)
        (inl (
          refl,
          all,
          ap (λ l. l ++ recalculated end.0 end.1 ∷ []) asked
              ∙ append_assoc r.state.1 (calls answer cancelled from n from)
                  (recalculated end.0 end.1 ∷ []),
          ap (λ l. l ++ backfill_completed from (from + n - 1) ∷ []) kept,
          (out.metrics, refl),
        ))

  -- Where RunIfNeeded finds a range of blocks to fill, it is not empty and ends at the chain's height. Then
  -- either it returns without an error, after ProcessBlock for each height of the range, in order, each once
  -- and not as live, then the summaries between the times of the first and the last block, with the
  -- notices of the gap, the start and the completion, and the gauge of remaining blocks at 0 last; or it
  -- returns an error after the calls for some first heights, without summaries and completion.
  pub run_if_needed-Finished :
      (last requested current from n : ℕ) (r : Noted)
      → backfill_range last requested current ≡ some (from, n)
      → (1 ≤ n)
        × (from + n - 1 ≡ current)
        × Finished from n r (
            run_if_needed answer cancelled
              (noting p)
              (noting_reporter reporter)
              true
              (ok last)
              (some current)
              (some (resolved requested))
              r)
  unfolding run_if_needed run_range
  run_if_needed-Finished last requested current from n r gap =
      let to = from + n - 1 in
      let range = backfill_range-ends last requested current from n gap in
      let out =
        backfill answer cancelled (timed from (gauged to (noting p))) n from
          (announce from to r, (0, 0)) in
      (
        range.0,
        range.1,
        rw gap (
            finish-Finished from n r out.0 out.1.0 out.1.1 range.0 (
              backfill-Asks answer cancelled from (gauged to (noting p)) (λ m. m.state.1)
                (λ m. m.ops) (gauged_notes to) (gauged_keeps to) n from (announce from to r)
                (0, 0))),
      )

-- ===== src/Cmd/Recover/Gap.antt =====
-- The recovery of a gap: which blocks are processed and how, and how it ends.
use mathlib.Core.List.{append_assoc, append-nil}
use pocket_settlement_monito.Prelude.{
  ℕ, zero, suc, ◌+◌, ◌-◌, ◌≤◌, ◌≡◌, refl, sym, ap, ◌∙◌, ◌⊎◌, inl, inr, Bool, true, false, Option,
  List, [], ◌∷◌, ◌++◌, arith,
}
use pocket_settlement_monito.Prelude.Exec.{Result, ok, err}
use pocket_settlement_monito.Store.Models.{Time}
use pocket_settlement_monito.Subscriber.Types.{SettlementEvent}
use pocket_settlement_monito.Metrics.{Registry, set_backfill_blocks_remaining}
use pocket_settlement_monito.Processor.Collector.{BlockProcessor}
use pocket_settlement_monito.Cmd.Backfill.{Block}
use pocket_settlement_monito.Cmd.Backfill.Blocks.{heights_from}
use pocket_settlement_monito.Cmd.Calls.{
  asked_heights, Asked, processed, recalculated, noting, noting_reporter, block_calls, last_time,
}
use pocket_settlement_monito.Cmd.Recover.{
  SummaryReporter, backfill_completed, Recovery, set_remaining, announce, fetch_block, catches_up,
  after_block, recover_block, recover_from, recover_first, backfill_gap,
}

module _ (answer : ℕ → ℕ → Option Block) (now : ℕ → Time) (threshold : ℕ) where
  abbrev pub gap_calls : ℕ → ℕ → List Asked
  gap_calls = block_calls (fetch_block answer now threshold) (catches_up answer now threshold)

  abbrev pub gap_last : ℕ → ℕ → Time → Time
  gap_last = last_time (fetch_block answer now threshold)

  module _ {S : Type 0} (p : BlockProcessor S) (reporter : SummaryReporter S) (from to : ℕ) where
    abbrev pub Noted : Type 0
    Noted = Recovery (S × List Asked)

    -- All of `calls`, and the summaries; or the calls for some first blocks, and no more.
    abbrev pub Outcome : ℕ → ℕ → Time × Time → Noted → Noted → Type 0
    Outcome n h (first, last) r out =
        ((out.state.1 ≡ r.state.1 ++ (gap_calls n h ++ recalculated first last ∷ []))
          × (asked_heights (gap_calls n h) ≡ heights_from h n)
          × (out.ops ≡ r.ops ++ backfill_completed from to ∷ []))
        ⊎ ((k : ℕ) × (k ≤ n) × (out.state.1 ≡ r.state.1 ++ gap_calls k h) × (out.ops ≡ r.ops))

    abbrev pub Ends : ℕ → ℕ → Time × Time → Noted → Noted → Type 0
    Ends n h times r out =
        ((m : Registry) × (out.metrics ≡ set_backfill_blocks_remaining 0 m))
        × Outcome n h times r out

    abbrev recovered : (Time → Noted → Noted) → ℕ → Result Block → Noted → Noted
    recovered = recover_block answer now threshold (noting p) (noting_reporter reporter) from to

    -- After a block that was processed.
    after_block-Ends :
        (n h : ℕ) (times : Time × Time) (rest : Noted → Noted) (ts : Time)
        (es : List SettlementEvent)
        → fetch_block answer now threshold h ≡ ok (ts, es)
        → ((m : Noted) → Ends n (suc h) times m (rest m))
        → (result : Result (Unit {0})) (s : S) (r : Noted)
        → Ends (suc n) h times r (
            after_block answer now threshold
              (noting p)
              (noting_reporter reporter)
              from
              to
              rest
              h
              result
              (record r {
                state =
                    (s, r.state.1 ++ processed h ts es (catches_up answer now threshold h ts) ∷ []);
              }))
    unfolding block_calls asked_heights
    after_block-Ends n h times rest ts es fetched ends (err e) s r =
        ((r.metrics, refl), inr (1, omega arith, rw fetched refl, refl))
    after_block-Ends n h times rest ts es fetched ends (ok _) s r =
        let one = processed h ts es (catches_up answer now threshold h ts) ∷ [] in
        let m : Noted = set_remaining (to - h) (record r { state = (s, r.state.1 ++ one) }) in
        let (gauge, outcome) = ends m in
        (
          gauge,
          elim outcome [
            | inl (all, heights, completed) ↦ inl (
              all
                  ∙ rw fetched (
                      append_assoc r.state.1 one
                        (gap_calls n (suc h) ++ recalculated times.0 times.1 ∷ [])),
              rw fetched (ap (λ hs. h ∷ hs) heights),
              completed,
            )
            | inr (k, k≤n, some_calls, same) ↦ inr (
              suc k,
              omega arith,
              some_calls ∙ rw fetched (append_assoc r.state.1 one (gap_calls k (suc h))),
              same,
            )
          ],
        )

    block-Ends :
        (n h : ℕ) (times : Time × Time) (rest : Time → Noted → Noted) (f : Result Block)
        → fetch_block answer now threshold h ≡ f
        → ((ts : Time) (es : List SettlementEvent)
            → fetch_block answer now threshold h ≡ ok (ts, es)
            → (m : Noted) → Ends n (suc h) times m (rest ts m))
        → (r : Noted) → Ends (suc n) h times r (recovered rest h f r)
    unfolding block_calls
    block-Ends n h times rest (err e) fetched ends r =
        ((r.metrics, refl), inr (0, omega arith, sym (append-nil r.state.1), refl))
    block-Ends n h times rest (ok (ts, es)) fetched ends r =
        let out = p.process_block h ts es (catches_up answer now threshold h ts) r.state.0 in
        after_block-Ends n h times (rest ts) ts es fetched (ends ts es fetched) out.0 out.1 r

    recover_from-Ends :
        (n h : ℕ) (first last : Time) (r : Noted)
        → Ends n h
            (first, gap_last n h last)
            r
            (recover_from answer now threshold
              (noting p)
              (noting_reporter reporter)
              from
              to
              n
              h
              first
              last
              r)
    unfolding recover_from last_time block_calls asked_heights
    recover_from-Ends zero h first last r = ((r.metrics, refl), inl (refl, refl, refl))
    recover_from-Ends (suc n) h first last r =
        block-Ends n h (first, gap_last (suc n) h last)
          (λ ts.
            recover_from answer now threshold (noting p) (noting_reporter reporter) from to n
              (suc h) first ts)
          (fetch_block answer now threshold h) refl
          (λ ts es fetched m. rw fetched (recover_from-Ends n (suc h) first ts m)) r

    recover_first-Ends :
        (n : ℕ)
        → 1 ≤ n
        → (r : Noted)
        → Ends n from
            (gap_last 1 from 0, gap_last n from 0)
            r
            (recover_first answer now threshold (noting p) (noting_reporter reporter) from to n r)
    unfolding last_time
    recover_first-Ends zero 1≤n r = absurd (omega arith)
    recover_first-Ends (suc n) 1≤n r =
        block-Ends n from (gap_last 1 from 0, gap_last (suc n) from 0)
          (λ ts.
            recover_from answer now threshold (noting p) (noting_reporter reporter) from to n
              (suc from) ts ts)
          (fetch_block answer now threshold from) refl
          (λ ts es fetched m. rw fetched (recover_from-Ends n (suc from) ts ts m)) r

    -- The recovery of a gap that does not begin after its end, whatever its blocks bring, sets the gauge of
    -- the remaining blocks to 0 last. Either all of its blocks were fetched and ProcessBlock was called for
    -- each of them in the order of their heights, as live exactly if the block is within the threshold, then
    -- the summaries between the first and the last block's time were recalculated, and the notifier was
    -- told of the gap, the start and the completion; or ProcessBlock was called so for some first blocks
    -- only, and no summaries were recalculated and no completion was sent.
    pub backfill_gap-Ends :
        from ≤ to
        → (connected : Bool) (r : Noted)
        → Ends
            (to + 1 - from)
            from
            (gap_last 1 from 0, gap_last (to + 1 - from) from 0)
            (announce from to r)
            (backfill_gap answer now threshold
              (noting p)
              (noting_reporter reporter)
              from
              to
              connected
              r)
    unfolding backfill_gap block_calls
    backfill_gap-Ends from≤to false r =
        ((_, refl), inr (0, omega arith, sym (append-nil r.state.1), refl))
    backfill_gap-Ends from≤to true r =
        recover_first-Ends (to + 1 - from) (omega arith) (announce from to r)

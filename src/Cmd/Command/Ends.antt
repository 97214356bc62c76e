-- ===== src/Cmd/Command/Ends.antt =====
-- How the command ends.
use mathlib.Core.List.{append_assoc}
use pocket_settlement_monito.Prelude.{
  ℕ, ◌+◌, ◌-◌, ◌≤◌, ◌≡◌, refl, ap, ◌∙◌, ◌⊎◌, inl, inr, Bool, Option, none, some, List, [], ◌∷◌,
  ◌++◌, String, arith, ltb, Bool-cases,
}
use pocket_settlement_monito.Prelude.Exec.{Error, Result, ok, err, ◌>>=◌}
use pocket_settlement_monito.Store.Models.{Time}
use pocket_settlement_monito.Processor.Collector.{BlockProcessor}
use pocket_settlement_monito.Processor.Filter.{SupplierFilter, new_supplier_filter}
use pocket_settlement_monito.Cmd.Backfill.{Block, fetch, backfill}
use pocket_settlement_monito.Cmd.Backfill.Blocks.{heights_from}
use pocket_settlement_monito.Cmd.Resolve.{Resolved}
use pocket_settlement_monito.Cmd.Calls.{
  asked_heights, Asked, recalculated, noting, noting_reporter, last_time,
}
use pocket_settlement_monito.Cmd.Recover.{SummaryReporter}
use pocket_settlement_monito.Cmd.Timed.{Times, timed, calls, first_time_lem, Asks, backfill-Asks}
use pocket_settlement_monito.Cmd.Command.{
  of_resolved, below_latest, check_range, give, summarize, fill, run_backfill,
}

check_range_ok :
    (from to : ℕ) (current : Option ℕ)
    → check_range from to current ≡ ok tt
    → (from ≤ to) × ((latest : ℕ) × (current ≡ some latest) × (to ≤ latest))
check_range_ok from to current fine = elim (Bool-cases (ltb to from)) [
  | inl over ↦ absurd (ground arith)
  | inr fits ↦ (ground arith, below current (rw fits at fine))
]
  where
    below :
        (c : Option ℕ)
        → below_latest to c ≡ ok tt
        → (latest : ℕ) × (c ≡ some latest) × (to ≤ latest)
    below none fine' = absurd (ground arith)
    below (some latest) fine' = (latest, refl, ground arith)

abbrev pub noting_result :
    {S : Type 0} → Result (SummaryReporter S) → Result (SummaryReporter (S × List Asked))
noting_result (err e) = err e
noting_result (ok reporter) = ok (noting_reporter reporter)

module _ (answer : ℕ → ℕ → Option Block) (cancelled : ℕ → ℕ → Bool) {S : Type 0} where
  abbrev pub Filled : ℕ → ℕ → List Asked → Result (Unit {0}) × (S × List Asked) → Type 0
  Filled from n asked (result, (s, asked')) =
      let all = calls answer cancelled from n from in
      let time : ℕ → Time = λ k. last_time (fetch answer cancelled) k from 0 in
      (result ≡ ok tt)
      × (asked_heights all ≡ heights_from from n)
      × (asked' ≡ asked ++ (all ++ recalculated (time 1) (time n) ∷ []))

  abbrev pub Stopped : ℕ → ℕ → List Asked → Result (Unit {0}) × (S × List Asked) → Type 0
  Stopped from n asked (result, (s, asked')) =
      (e : Error) × (result ≡ err e)
      × (k : ℕ) × (k ≤ n)
      × (asked' ≡ asked ++ calls answer cancelled from k from)

  summarize-ends :
      (p : BlockProcessor S) (reporter : SummaryReporter S) (from n : ℕ) (s : S)
      (asked : List Asked) (result : Result (Unit {0})) (out : S × List Asked) (t : Times)
      → 1 ≤ n
      → Asks answer cancelled from
          (noting p)
          (λ q. q.1)
          (λ q. tt)
          (λ h ts es live q. refl)
          (λ h ts es live q. refl)
          n
          from
          ((s, asked), (0, 0))
          (result, (out, t))
      → let final = summarize answer cancelled (noting_reporter reporter) (result, (out, t)) in
        Filled from n asked final ⊎ Stopped from n asked final
  summarize-ends p reporter from n s asked result out t gap (kept, inr (e, bad, k, low, noted)) =
      rw bad (inr (e, refl, k, low, noted))
  summarize-ends p reporter from n s asked result out t gap (kept, inl (fine, noted, all, times)) =
      let end : Time × Time = (
        last_time (fetch answer cancelled) 1 from 0,
        last_time (fetch answer cancelled) n from 0,
      ) in
      let same : t ≡ end =
        times
        ∙ ap (λ f. (f, last_time (fetch answer cancelled) n from 0))
            (first_time_lem answer cancelled from n 0 gap) in
      rw (fine, same)
        (inl (
          refl,
          all,
          ap (λ l. l ++ recalculated end.0 end.1 ∷ []) noted
              ∙ append_assoc asked (calls answer cancelled from n from)
                  (recalculated end.0 end.1 ∷ []),
        ))

  -- Nothing was asked, or the range was filled or begun.
  abbrev pub CommandEnds :
      Resolved → Resolved → Option ℕ → List Asked → Result (Unit {0}) × (S × List Asked) → Type 0
  CommandEnds from_flag to_flag current asked out =
      ((e : Error) × (out.0 ≡ err e) × (out.1.1 ≡ asked))
      ⊎ ((from : ℕ) × (to : ℕ) × (latest : ℕ) × (of_resolved from_flag ≡ ok from)
          × (of_resolved to_flag ≡ ok to)
          × (current ≡ some latest)
          × (from ≤ to)
          × (to ≤ latest)
          × (Filled from (to + 1 - from) asked out ⊎ Stopped from (to + 1 - from) asked out))

  module _ (processor : SupplierFilter → BlockProcessor S) (from_flag to_flag : Resolved)
      (current : Option ℕ) (s : S) (asked : List Asked) where
    filling-ends :
        (addrs : List String) (reporter : SummaryReporter S) (from to : ℕ)
        → of_resolved from_flag ≡ ok from
        → of_resolved to_flag ≡ ok to
        → check_range from to current ≡ ok tt
        → CommandEnds from_flag to_flag current asked (
            fill answer cancelled
              (noting (processor (new_supplier_filter addrs)))
              (noting_reporter reporter)
              from
              to
              (s, asked))
    filling-ends addrs reporter from to f t fine =
        let p = processor (new_supplier_filter addrs) in
        let n = to + 1 - from in
        let (ordered, (latest, known, below)) = check_range_ok from to current fine in
        let out = backfill answer cancelled (timed from (noting p)) n from ((s, asked), (0, 0)) in
        inr (
          from,
          to,
          latest,
          f,
          t,
          known,
          ordered,
          below,
          summarize-ends p reporter from n s asked out.0 out.1.0 out.1.1 (omega arith) (
              backfill-Asks answer cancelled from (noting p) (λ q. q.1) (λ q. tt)
                (λ h ts es live q. refl) (λ h ts es live q. refl) n from (s, asked) (0, 0)),
        )

    abbrev stages :
        Result (Unit {0})
        → Result ℕ
        → Result ℕ
        → (ℕ → ℕ → Result (Unit {0}))
        → Result (List String)
        → Result (SummaryReporter S)
        → Result (Unit {0}) × (S × List Asked)
    stages opened f t checked addresses reporter =
        (give opened >>= λ _. give f >>= λ from. give t >>= λ to. give (checked from to) >>= λ _.
        give addresses >>= λ addrs. give (noting_result reporter) >>= λ rep.
        fill answer cancelled (noting (processor (new_supplier_filter addrs))) rep from to)
          (s, asked)

    stages-end :
        (opened : Result (Unit {0})) (f t : Result ℕ) (addresses : Result (List String))
        (reporter : Result (SummaryReporter S))
        → of_resolved from_flag ≡ f
        → of_resolved to_flag ≡ t
        → CommandEnds from_flag to_flag current asked
            (stages opened f t (λ from to. check_range from to current) addresses reporter)
    stages-end (err e) f t addresses reporter same_f same_t = inl (e, refl, refl)
    stages-end (ok _) (err e) t addresses reporter same_f same_t = inl (e, refl, refl)
    stages-end (ok _) (ok from) (err e) addresses reporter same_f same_t = inl (e, refl, refl)
    stages-end (ok _) (ok from) (ok to) addresses reporter same_f same_t =
        checked-end (check_range from to current) addresses reporter refl
      where
        checked-end :
            (c : Result (Unit {0})) (addresses : Result (List String))
            (reporter : Result (SummaryReporter S))
            → check_range from to current ≡ c
            → CommandEnds from_flag to_flag current asked
                (stages (ok tt) (ok from) (ok to) (λ _ _. c) addresses reporter)
        checked-end (err e) addresses reporter same = inl (e, refl, refl)
        checked-end (ok _) (err e) reporter same = inl (e, refl, refl)
        checked-end (ok _) (ok addrs) (err e) same = inl (e, refl, refl)
        checked-end (ok _) (ok addrs) (ok rep) same =
            filling-ends addrs rep from to same_f same_t same

    -- The command ends in one of three ways. It asks nothing of the processor and returns an error. Or the two
    -- flags resolve to heights, the first at most the second and that at most the chain's height, and
    -- either it returns without an error, after ProcessBlock for each height between them, in order, each
    -- once and not as live, and then the summaries between the times of the first and the last
    -- block; or it returns an error, after the calls for some first heights and without summaries.
    pub run_backfill-CommandEnds :
        (opened : Result (Unit {0})) (addresses : Result (List String))
        (reporter : Result (SummaryReporter S))
        → CommandEnds from_flag to_flag current asked (
            run_backfill answer cancelled
              (λ f. noting (processor f))
              opened
              from_flag
              to_flag
              current
              addresses
              (noting_result reporter)
              (s, asked))
    unfolding run_backfill
    run_backfill-CommandEnds opened addresses reporter =
        stages-end opened (of_resolved from_flag) (of_resolved to_flag) addresses reporter refl refl

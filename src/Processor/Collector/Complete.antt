-- ===== src/Processor/Collector/Complete.antt =====
-- What the collector hands on: every received event once, in order, under its own block's height.
use mathlib.Core.List.{append_assoc, append-nil}
use pocket_settlement_monito.Prelude.{
  ◌≡◌, refl, sym, ap, ◌∙◌, ◌⊎◌, inl, inr, List, [], ◌∷◌, ◌++◌, All, Bool-cases,
}
use pocket_settlement_monito.Prelude.Exec.{Error, Result, ok, err, continue, for_each}
use pocket_settlement_monito.Processor.Collector.{
  BlockProcessor, Input, received, timer_expired, Ending, is_empty, flush, step, final_flush,
  returned, run, stop, new_collector,
}
use pocket_settlement_monito.Processor.Collector.Steps.{
  Tagged, tag, handed_on, events_of, HasHeight, is_empty-nil, recording, State, calls_of,
  ProcessorFailed, through, IsReady, Advances, flush-through, step-Advances,
}

module _ {S : Type 0} (p : BlockProcessor S) where
  events_of_cons :
      (i : Input) (is : List Input) → events_of (i ∷ is) ≡ events_of (i ∷ []) ++ events_of is
  unfolding events_of
  events_of_cons (received b) is =
      ap (λ l. l ++ events_of is) (sym (append-nil (tag b.height b.events)))
  events_of_cons timer_expired is = refl

  -- After all the inputs, or after the one that failed.
  abbrev Delivers : State p → List Input → Result (Unit {0}) × State p → Type 0
  Delivers st is (r, after) =
      ((r ≡ ok tt) × (through p after ≡ through p st ++ events_of is))
      ⊎ ((e : Error) × (r ≡ err e)
          × ProcessorFailed p e
          × (rest : Tagged) × (handed_on (calls_of p after) ++ rest ≡ through p st ++ events_of is))

  loop-Delivers :
      (is : List Input) (st : State p)
      → IsReady p st
      → All HasHeight is
      → Delivers st is (for_each (step (recording p)) is st)
  unfolding events_of
  loop-Delivers [] st ready heights = inl (refl, sym (append-nil _))
  loop-Delivers (i ∷ is) st ready heights =
      continued (step (recording p) i st).0 (step (recording p) i st).1
        (λ next ready'. loop-Delivers is next ready' heights.1)
        (step-Advances p i st ready heights.0)
    where
      continued :
          (r : Result (Unit {0})) (next : State p)
          → ((n : State p) → IsReady p n → Delivers n is (for_each (step (recording p)) is n))
          → Advances p st (events_of (i ∷ [])) (r, next)
          → Delivers st (i ∷ is) (continue r (λ _. for_each (step (recording p)) is) next)
      continued r next later (ready', inl (done, t)) = rw done (elim (later next ready') [
        | inl (all, u) ↦ inl (all, u ∙ grown)
        | inr (e, bad, failed, rest, u) ↦ inr (e, bad, failed, rest, u ∙ grown)
      ])
        where
          grown : through p next ++ events_of is ≡ through p st ++ events_of (i ∷ is)
          grown =
              ap (λ l. l ++ events_of is) t
              ∙ append_assoc (through p st) (events_of (i ∷ [])) (events_of is)
              ∙ ap (λ l. through p st ++ l) (sym (events_of_cons i is))
      continued r next later (ready', inr (e, bad, failed, t, h)) =
          rw bad (inr (e, refl, failed, events_of (i ∷ is), ap (λ l. l ++ events_of (i ∷ is)) h))

  final_flush-through :
      (st : State p) → handed_on (calls_of p (final_flush (recording p) st)) ≡ through p st
  unfolding final_flush flush
  final_flush-through (c, (s, calls)) = elim (Bool-cases (is_empty c.current_events)) [
    | inl empty ↦ rw empty (
        sym (append-nil (handed_on calls))
        ∙ ap (λ es. handed_on calls ++ tag c.current_height es)
            (sym (is_empty-nil c.current_events empty)))
    | inr full ↦ rw full (flush-through p (c, (s, calls)))
  ]

  -- For blocks with a height other than 0, from a new collector: Run hands every received event to
  -- ProcessBlock once, in the order of receipt and under the height of its own block, before it returns;
  -- or some call of ProcessBlock has failed, Run returns its error, and what it has handed on is a
  -- beginning of what was received.
  pub run_delivers :
      (is : List Input) (ending : Ending) (s : S)
      → All HasHeight is
      → let (r, (c, (s', calls))) = run (recording p) is ending (new_collector, (s, [])) in
        ((r ≡ returned ending) × (handed_on calls ≡ events_of is))
        ⊎ ((e : Error) × (r ≡ err e)
            × ProcessorFailed p e
            × (rest : Tagged) × (handed_on calls ++ rest ≡ events_of is))
  unfolding run handed_on
  run_delivers is ending s heights =
      ended (for_each (step (recording p)) is start).0 (for_each (step (recording p)) is start).1
        (loop-Delivers is start (λ _. refl) heights)
    where
      start : State p
      start = (new_collector, (s, []))

      ended :
          (r : Result (Unit {0})) (next : State p)
          → Delivers start is (r, next)
          → let (r', after) = stop (recording p) ending (r, next) in
            ((r' ≡ returned ending) × (handed_on (calls_of p after) ≡ events_of is))
            ⊎ ((e : Error) × (r' ≡ err e)
                × ProcessorFailed p e
                × (rest : Tagged) × (handed_on (calls_of p after) ++ rest ≡ events_of is))
      ended r next (inl (done, t)) = rw done (inl (refl, final_flush-through next ∙ t))
      ended r next (inr (e, bad, failed, rest, t)) = rw bad (inr (e, refl, failed, rest, t))

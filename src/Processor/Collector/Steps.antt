-- ===== src/Processor/Collector/Steps.antt =====
-- One turn of the collector: what goes in has come out or is held.
use mathlib.Core.List.{append_assoc, append-nil, map-append}
use pocket_settlement_monito.Prelude.{
  ◌≡◌, ◌≢◌, refl, sym, ap, ◌∙◌, ◌⊎◌, inl, inr, Bool, true, false, List, [], ◌∷◌, ◌++◌, map, arith,
  Bool-cases, ◌==◌, ==_iff,
}
use pocket_settlement_monito.Prelude.Words.{Int64}
use pocket_settlement_monito.Prelude.Exec.{Error, Result, ok, err, continue}
use pocket_settlement_monito.Store.Models.{Time}
use pocket_settlement_monito.Subscriber.Types.{SettlementEvent, BlockEvents}
use pocket_settlement_monito.Processor.Collector.{
  BlockProcessor, Collector, Input, received, timer_expired, is_empty, append_block, is_new_height,
  accept, flush, step,
}

-- A call of ProcessBlock.
pub record Call : Type 0 where
  pub height : Int64
  pub events : List SettlementEvent

abbrev pub Tagged : Type 0
Tagged = List (Int64 × SettlementEvent)

abbrev pub tag : Int64 → List SettlementEvent → Tagged
tag h es = map (λ e. (h, e)) es

-- The events of the calls, each with the height it was handed on under.
unfoldable pub handed_on : List Call → Tagged
handed_on [] = []
handed_on (c ∷ cs) = tag c.height c.events ++ handed_on cs

-- The events of the received blocks, each with its block's height.
unfoldable pub events_of : List Input → Tagged
events_of [] = []
events_of (received b ∷ is) = tag b.height b.events ++ events_of is
events_of (timer_expired ∷ is) = events_of is

abbrev pub HasHeight : Input → Type 0
HasHeight (received b) = b.height ≢ 0
HasHeight timer_expired = Unit

handed_on-append : (xs ys : List Call) → handed_on (xs ++ ys) ≡ handed_on xs ++ handed_on ys
unfolding handed_on
handed_on-append [] ys = refl
handed_on-append (c ∷ cs) ys =
    ap (λ l. tag c.height c.events ++ l) (handed_on-append cs ys)
    ∙ sym (append_assoc (tag c.height c.events) (handed_on cs) (handed_on ys))

unit_cases : (r : Result (Unit {0})) → (r ≡ ok tt) ⊎ ((e : Error) × (r ≡ err e))
unit_cases (ok _) = inl refl
unit_cases (err e) = inr (e, refl)

pub is_empty-nil : (es : List SettlementEvent) → is_empty es ≡ true → es ≡ []
is_empty-nil [] h = refl
is_empty-nil (e ∷ es) h = cc

-- No new height: the block has the collector's height, or the collector has none.
same_or_none :
    (b : BlockEvents) (c : Collector)
    → (c.current_height ≡ 0 → c.current_events ≡ [])
    → is_new_height b c ≡ false
    → (b.height ≡ c.current_height) ⊎ (c.current_events ≡ [])
same_or_none b c ready old = elim (Bool-cases (c.current_height == 0)) [
  | inl zero ↦ inr (ready ((==_iff c.current_height 0).0 zero))
  | inr some ↦ inl (ground arith)
]

module _ {S : Type 0} (p : BlockProcessor S) where
  -- A processor that also records how it was called.
  abbrev pub recording : BlockProcessor (S × List Call)
  recording = record {
    process_block = λ h ts es live (s, calls).
        let (r, s') = p.process_block h ts es live s in
        (r, (s', calls ++ record { height = h; events = es } ∷ []));
  }

  abbrev pub State : Type 0
  State = Collector × (S × List Call)

  abbrev pub calls_of : State → List Call
  calls_of (c, (s, calls)) = calls

  -- A call of ProcessBlock returned this error.
  abbrev pub ProcessorFailed : Error → Type 0
  ProcessorFailed e =
      (h : Int64) × (ts : Time) × (es : List SettlementEvent) × (live : Bool) × (s : S)
      × ((p.process_block h ts es live s).0 ≡ err e)

  -- All that has gone through the collector: what was handed on, and what it holds.
  abbrev pub through : State → Tagged
  through (c, (s, calls)) = handed_on calls ++ tag c.current_height c.current_events

  -- Without a height it holds nothing.
  abbrev pub IsReady : State → Type 0
  IsReady (c, s) = c.current_height ≡ 0 → c.current_events ≡ []

  -- After an operation on `st` that takes in `new`.
  abbrev pub Advances : State → Tagged → Result (Unit {0}) × State → Type 0
  Advances st new (r, after) =
      IsReady after
      × (((r ≡ ok tt) × (through after ≡ through st ++ new))
          ⊎ ((e : Error) × (r ≡ err e)
              × ProcessorFailed e
              × (through after ≡ through st)
              × (handed_on (calls_of after) ≡ through st)))

  pub flush-through : (st : State) → handed_on (calls_of (flush recording st).1) ≡ through st
  unfolding flush handed_on
  flush-through (c, (s, calls)) =
      handed_on-append calls _
      ∙ ap (λ l. handed_on calls ++ l) (append-nil (tag c.current_height c.current_events))

  flush-Advances : (st : State) → Advances st [] (flush recording st)
  unfolding flush
  flush-Advances (c, (s, calls)) = (
    (λ _. refl),
    elim (unit_cases
        (p.process_block c.current_height c.current_timestamp c.current_events c.is_live s).0) [
          | inl done ↦ inl (done, ap (λ l. l ++ []) flushed)
          | inr (e, failed) ↦ inr (
            e,
            failed,
            (c.current_height, c.current_timestamp, c.current_events, c.is_live, s, failed),
            append-nil _ ∙ flushed,
            flushed,
          )
        ],
  )
    where
      flushed :
          handed_on (calls ++ record { height = c.current_height; events = c.current_events } ∷ [])
          ≡ through (c, (s, calls))
      flushed = flush-through (c, (s, calls))

  -- A block is appended to what has its height, or to nothing.
  append-through :
      (b : BlockEvents) (c : Collector) (s : S) (calls : List Call)
      → (b.height ≡ c.current_height) ⊎ (c.current_events ≡ [])
      → through (append_block b c, (s, calls)) ≡ through (c, (s, calls)) ++ tag b.height b.events
  append-through b c s calls (inl same) =
      ap (λ l. handed_on calls ++ l) (map-append _ c.current_events b.events)
      ∙ sym (append_assoc (handed_on calls) _ _)
      ∙ ap (λ h. (handed_on calls ++ tag h c.current_events) ++ tag b.height b.events) same
  append-through b c s calls (inr none) = rw (none, append-nil (handed_on calls)) refl

  accept-Advances :
      (b : BlockEvents) (st : State)
      → (b.height ≡ st.0.current_height) ⊎ (st.0.current_events ≡ [])
      → b.height ≢ 0
      → Advances st (tag b.height b.events ++ []) (accept recording b st)
  accept-Advances b (c, (s, calls)) same height = (
    (λ zero. absurd (height zero)),
    inl (
      refl,
      append-through b c s calls same
          ∙ ap (λ l. through (c, (s, calls)) ++ l) (sym (append-nil (tag b.height b.events))),
    ),
  )

  -- The rest of the step, after a flush with this result.
  flushed-Advances :
      (b : BlockEvents) (st : State) (r : Result (Unit {0})) (c : Collector) (s : S × List Call)
      → b.height ≢ 0
      → c.current_events ≡ []
      → Advances st [] (r, (c, s))
      → Advances st (tag b.height b.events ++ []) (continue r (λ _. accept recording b) (c, s))
  flushed-Advances b st (ok _) c (s, calls) height none (ready, inl (done, t)) =
      let (ready', advance) = accept-Advances b (c, (s, calls)) (inr none) height in
      (
        ready',
        elim advance [
          | inl (_, u) ↦
              inl (
                refl,
                u ∙ ap (λ l. l ++ (tag b.height b.events ++ [])) (t ∙ append-nil (through st)),
              )
          | inr (_, bad, _, _, _) ↦ cc
        ],
      )
  flushed-Advances b st (ok _) c s height none (ready, inr (_, bad, _, _, _)) = cc
  flushed-Advances b st (err e) c s height none (ready, inl (bad, _)) = cc
  flushed-Advances b st (err e) c s height none (ready, inr failed) = (ready, inr failed)

  pub step-Advances :
      (i : Input) (st : State)
      → IsReady st
      → HasHeight i
      → Advances st (events_of (i ∷ [])) (step recording i st)
  unfolding step events_of flush
  step-Advances (received b) (c, (s, calls)) ready height = elim (Bool-cases (is_new_height b c)) [
    | inl new ↦
        rw new
          (flushed-Advances b (c, (s, calls)) _ _ _ height refl (flush-Advances (c, (s, calls))))
    | inr old ↦ rw old (accept-Advances b (c, (s, calls)) (same_or_none b c ready old) height)
  ]
  step-Advances timer_expired (c, (s, calls)) ready height =
      elim (Bool-cases (is_empty c.current_events)) [
        | inl empty ↦ rw empty (ready, inl (refl, sym (append-nil _)))
        | inr full ↦ rw full (flush-Advances (c, (s, calls)))
      ]

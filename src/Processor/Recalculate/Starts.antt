-- ===== src/Processor/Recalculate/Starts.antt =====
-- The starts that the recalculation collects, and the groups of events that it forms, told by the rows of
-- the database.
use pocket_settlement_monito.Prelude.{
  ◌+◌, ◌≤◌, ◌<◌, String, ◌≡◌, refl, sym, ◌∙◌, inl, inr, Bool, true, false, ◌&&◌, ◌||◌, List, [],
  ◌∷◌, ◌++◌, any, select, All, All-append, All-imp, All-select_kept, select-select, any-select,
  select_ext, any_ext, arith, Bool-cases,
}
use pocket_settlement_monito.Prelude.Eq.{◌=?◌, nat_eq, string_eq, pair_eq}
use pocket_settlement_monito.Prelude.Maps.{add_to}
use pocket_settlement_monito.Store.Models.{Time, Settlement, OverserviceEvent, ReimbursementEvent}
use pocket_settlement_monito.Store.Tables.{Tables}
use pocket_settlement_monito.Store.Tables.Laws.{KeysDistinct, KeysDistinct-append}
use pocket_settlement_monito.Store.Period.{
  in_period, before_row, insert_row, order_rows, settlements_in, overservices_in, reimbursements_in,
}
use pocket_settlement_monito.Processor.Reporter.{day_start, day_end}
use pocket_settlement_monito.Processor.Recalculate.{
  Periods, mark_starts, distinct_starts, settlement_start, overservice_start, reimbursement_start,
}
use pocket_settlement_monito.Processor.Recalculate.Laws.{IsCalendar}

add_to-KeysDistinct :
    (k : Time) (s : List Time) → KeysDistinct (λ b. b) s → KeysDistinct (λ b. b) (add_to k s)
unfolding add_to
add_to-KeysDistinct k s d = elim (Bool-cases (any (λ j. j =? k) s)) [
  | inl old ↦ rw old d
  | inr new ↦ rw new (KeysDistinct-append (λ b. b) s k d new)
]

any-snoc :
    (a k : Time) (s : List Time) → any (λ b. b =? a) (s ++ k ∷ []) ≡ any (λ b. b =? a) s || k =? a
any-snoc a k [] = ground arith
any-snoc a k (b ∷ s) = ground (arith, any-snoc a k s)

any-old :
    (a k : Time) (s : List Time)
    → any (λ b. b =? k) s ≡ true
    → any (λ b. b =? a) s ≡ any (λ b. b =? a) s || k =? a
any-old a k [] h = cc
any-old a k (b ∷ s) h = ground (arith, any-old a k s)

add_to-any :
    (a k : Time) (s : List Time) → any (λ b. b =? a) (add_to k s) ≡ any (λ b. b =? a) s || k =? a
unfolding add_to
add_to-any a k s = elim (Bool-cases (any (λ j. j =? k) s)) [
  | inl old ↦ rw old (any-old a k s old)
  | inr new ↦ rw new (any-snoc a k s)
]

module _ {R : Type 0} (start : R → Time) where
  mark_starts-KeysDistinct :
      (rs : List R) (seen : List Time)
      → KeysDistinct (λ b. b) seen
      → KeysDistinct (λ b. b) (mark_starts start rs seen)
  unfolding mark_starts
  mark_starts-KeysDistinct [] seen d = d
  mark_starts-KeysDistinct (r ∷ rs) seen d =
      mark_starts-KeysDistinct rs (add_to (start r) seen) (add_to-KeysDistinct (start r) seen d)

  mark_starts-any :
      (a : Time) (rs : List R) (seen : List Time)
      → any (λ b. b =? a) (mark_starts start rs seen)
        ≡ any (λ b. b =? a) seen || any (λ r. start r =? a) rs
  unfolding mark_starts
  mark_starts-any a [] seen = ground arith
  mark_starts-any a (r ∷ rs) seen =
      ground (arith, mark_starts-any a rs (add_to (start r) seen), add_to-any a (start r) seen)

  mark_starts-All :
      (P : Time → Type 0) (rs : List R) (seen : List Time)
      → All (λ r. P (start r)) rs
      → All P seen
      → All P (mark_starts start rs seen)
  unfolding mark_starts add_to
  mark_starts-All P [] seen h ps = ps
  mark_starts-All P (r ∷ rs) seen h ps =
      mark_starts-All P rs (add_to (start r) seen) h.1
        (elim (Bool-cases (any (λ j. j =? start r) seen)) [
          | inl old ↦ rw old ps
          | inr new ↦ rw new (All-append P seen (start r ∷ []) ps (h.0, tt))
        ])

insert_row-All :
    (P : Settlement → Type 0) (s : Settlement) (rows : List Settlement)
    → P s
    → All P rows
    → All P (insert_row s rows)
unfolding insert_row
insert_row-All P s [] h hs = (h, tt)
insert_row-All P s (r ∷ rows) h hs = elim (Bool-cases (before_row s r)) [
  | inl first ↦ rw first (h, hs)
  | inr later ↦ rw later (hs.0, insert_row-All P s rows h hs.1)
]

order_rows-All :
    (P : Settlement → Type 0) (rows : List Settlement) → All P rows → All P (order_rows rows)
unfolding order_rows
order_rows-All P [] h = tt
order_rows-All P (s ∷ rows) h = insert_row-All P s (order_rows rows) h.0 (order_rows-All P rows h.1)

any-insert_row :
    (q : Settlement → Bool) (s : Settlement) (rows : List Settlement)
    → any q (insert_row s rows) ≡ any q (s ∷ rows)
unfolding insert_row
any-insert_row q s [] = refl
any-insert_row q s (r ∷ rows) = ground (arith, any-insert_row q s rows)

any-order_rows :
    (q : Settlement → Bool) (rows : List Settlement) → any q (order_rows rows) ≡ any q rows
unfolding order_rows
any-order_rows q [] = refl
any-order_rows q (s ∷ rows) =
    ground (arith, any-insert_row q s (order_rows rows), any-order_rows q rows)

absorb : (b c : Bool) → (c ≡ true → b ≡ true) → b && c ≡ c
absorb true c h = refl
absorb false true h = h refl
absorb false false h = refl

and_assoc_by : (b c d e : Bool) → b && c ≡ e → b && (c && d) ≡ e && d
and_assoc_by true c d e h = rw h
and_assoc_by false c d e h = rw (← h)

-- Some event of the database lies in the period.
abbrev pub has_events : Time → Time → Tables → Bool
has_events from to t =
    (any (λ s. in_period from to s.block_timestamp) t.settlements.rows
      || any (λ o. in_period from to o.block_timestamp) t.overservice_events.rows)
    || any (λ r. in_period from to r.block_timestamp) t.reimbursement_events.rows

module _ (from to : Time) (t : Tables) where
  abbrev pub range_settlements : List Settlement
  range_settlements = order_rows (settlements_in (day_start from) (day_end to) t)

  abbrev pub range_overservices : List OverserviceEvent
  range_overservices = overservices_in (day_start from) (day_end to) t

  abbrev pub range_reimbursements : List ReimbursementEvent
  range_reimbursements = reimbursements_in (day_start from) (day_end to) t

module _ (p : Periods) (from to : Time) (t : Tables) where
  abbrev pub range_starts : List Time
  range_starts =
      distinct_starts p (range_settlements from to t) (range_overservices from to t)
        (range_reimbursements from to t)

module _ (p : Periods) (c : IsCalendar p) (from to : Time) (t : Tables) where
  abbrev pub IsStartInRange : Time → Type 0
  IsStartInRange a = (p.start_of a ≡ a) × ((day_start from ≤ a) × (a < day_end to))

  pub range_starts-KeysDistinct : KeysDistinct (λ b. b) (range_starts p from to t)
  range_starts-KeysDistinct = mark_starts-KeysDistinct _ (range_reimbursements from to t) _ (
      mark_starts-KeysDistinct _ (range_overservices from to t) _
        (mark_starts-KeysDistinct _ (range_settlements from to t) [] tt))

  -- Each start is the start of an event's period, so it lies in the range.
  starts_of_rows :
      {R : Type 0} (ts : R → Time) (rows : List R)
      → All
          (λ r. IsStartInRange (p.start_of (ts r)))
          (select (λ r. in_period (day_start from) (day_end to) (ts r)) rows)
  starts_of_rows ts rows =
      All-imp (λ r. in_period (day_start from) (day_end to) (ts r) ≡ true) _ _
        (λ r h. (c.start_idem (ts r), c.inside from to (ts r) h)) (All-select_kept _ rows)

  pub range_starts-All : All IsStartInRange (range_starts p from to t)
  range_starts-All =
      mark_starts-All _ _ (range_reimbursements from to t) _
        (starts_of_rows (λ r. r.block_timestamp) t.reimbursement_events.rows)
        (mark_starts-All _ _ (range_overservices from to t) _
          (starts_of_rows (λ o. o.block_timestamp) t.overservice_events.rows)
          (mark_starts-All _ _ (range_settlements from to t) []
            (order_rows-All _ _ (starts_of_rows (λ s. s.block_timestamp) t.settlements.rows)) tt))

  pub range_starts_aligned : All (λ a. p.start_of a ≡ a) (range_starts p from to t)
  range_starts_aligned =
      All-imp IsStartInRange _ (range_starts p from to t) (λ a h. h.0) range_starts-All

  -- A period that starts in the range, and the events that the code finds for it.
  module _ (a : Time) (start : p.start_of a ≡ a) (low : day_start from ≤ a)
      (high : a < day_end to) where
    in_range-start :
        (x : Time)
        → in_period (day_start from) (day_end to) x && p.start_of x =? a
          ≡ in_period a (a + p.span) x
    in_range-start x =
        rw (c.start-in_period a x start) (absorb _ _ (c.whole from to a x start low high))

    -- The rows of the range whose period is this one are the rows of the period.
    module _ {R : Type 0} (ts : R → Time) where
      pub group-rows :
          (rows : List R)
          → select
              (λ r. p.start_of (ts r) =? a)
              (select (λ r. in_period (day_start from) (day_end to) (ts r)) rows)
            ≡ select (λ r. in_period a (a + p.span) (ts r)) rows
      group-rows rows = select-select _ _ rows ∙ select_ext _ _ (λ r. in_range-start (ts r)) rows

      pub service-rows :
          (id : R → String) (s : String) (rows : List R)
          → select
              (λ r. p.start_of (ts r) =? a && id r =? s)
              (select (λ r. in_period (day_start from) (day_end to) (ts r)) rows)
            ≡ select (λ r. id r =? s) (select (λ r. in_period a (a + p.span) (ts r)) rows)
      service-rows id s rows =
          select-select _ _ rows
          ∙ select_ext _ _ (λ r. and_assoc_by _ _ _ _ (in_range-start (ts r))) rows
          ∙ sym (select-select _ _ rows)

      any-rows :
          (rows : List R)
          → any
              (λ r. p.start_of (ts r) =? a)
              (select (λ r. in_period (day_start from) (day_end to) (ts r)) rows)
            ≡ any (λ r. in_period a (a + p.span) (ts r)) rows
      any-rows rows = any-select _ _ rows ∙ any_ext _ _ (λ r. in_range-start (ts r)) rows

    -- The start is among those collected just if the period has an event.
    pub range_starts-has_events :
        any (λ b. b =? a) (range_starts p from to t) ≡ has_events a (a + p.span) t
    range_starts-has_events = rw (
      mark_starts-any (reimbursement_start p) a (range_reimbursements from to t) _,
      mark_starts-any (overservice_start p) a (range_overservices from to t) _,
      mark_starts-any (settlement_start p) a (range_settlements from to t) [],
      any-order_rows (λ s. p.start_of s.block_timestamp =? a)
          (settlements_in (day_start from) (day_end to) t),
      any-rows (λ s. s.block_timestamp) t.settlements.rows,
      any-rows (λ o. o.block_timestamp) t.overservice_events.rows,
      any-rows (λ r. r.block_timestamp) t.reimbursement_events.rows,
    )

-- ===== src/Processor/Recalculate/Rebuilt.antt =====
-- What RecalculateSummariesForRange leaves in the summary tables, told by the events in the database.
use pocket_settlement_monito.Prelude.{
  ◌+◌, ◌≤◌, ◌<◌, String, ◌≡◌, ◌∙◌, inl, inr, true, ◌&&◌, [], any, select, if◌then◌else◌, Bool-cases,
}
use pocket_settlement_monito.Prelude.Eq.{◌=?◌, nat_eq, string_eq, pair_eq}
use pocket_settlement_monito.Prelude.Maps.{group_by-get}
use pocket_settlement_monito.Store.Models.{Time, Totals}
use pocket_settlement_monito.Store.Tables.{Tables}
use pocket_settlement_monito.Store.Tables.Laws.{KeysDistinct}
use pocket_settlement_monito.Store.Db.{in_turn}
use pocket_settlement_monito.Store.Period.{
  settlements_in, overservices_in, reimbursements_in, suppliers_in, suppliers_in_frame,
}
use pocket_settlement_monito.Processor.Aggregate.{aggregate_block, totals_of}
use pocket_settlement_monito.Processor.Aggregate.Order.{aggregate_block-order_rows}
use pocket_settlement_monito.Processor.Reporter.{KnownServices, day_start, day_end}
use pocket_settlement_monito.Processor.Recalculate.{
  Periods, settlement_start, overservice_start, reimbursement_start,
}
use pocket_settlement_monito.Processor.Recalculate.Laws.{Leaves, Rows, IsStore, IsCalendar}
use pocket_settlement_monito.Processor.Recalculate.Effect.{
  put_periods_frame, new_service, new_network, put_period, network_untouched, network_rebuilt,
  service_untouched, service_rebuilt,
}
use pocket_settlement_monito.Processor.Recalculate.Starts.{
  has_events, range_settlements, range_overservices, range_reimbursements, range_starts,
  range_starts-KeysDistinct, range_starts_aligned, group-rows, service-rows,
  range_starts-has_events,
}

-- The totals of a period, from all of its events.
abbrev pub network_of_events : Time → Time → Tables → Totals
network_of_events from to t =
    totals_of
      (aggregate_block (settlements_in from to t) (overservices_in from to t)
        (reimbursements_in from to t))
      (suppliers_in from to "" t)

-- Those of a service: its settlements and reimbursements; an overservicing has no service.
abbrev pub service_of_events : Time → Time → String → Tables → Totals
service_of_events from to s t =
    totals_of
      (aggregate_block (select (λ x. x.service_id =? s) (settlements_in from to t)) []
        (select (λ r. r.service_id =? s) (reimbursements_in from to t)))
      (suppliers_in from to s t)

module _ (p : Periods) (w : Rows) (from to : Time) (known : KnownServices) (t : Tables) where
  -- The loop over the periods of the range.
  abbrev pub rebuild_periods : Tables → Tables
  rebuild_periods =
      in_turn
        (put_period p w (range_settlements from to t) (range_overservices from to t)
          (range_reimbursements from to t) known)
        (range_starts p from to t)

  pub rebuild_periods_frame :
      {F : Type 0} (field : Tables → F)
      → Leaves w field
      → (u : Tables) → field (rebuild_periods u) ≡ field u
  rebuild_periods_frame field h u =
      put_periods_frame field p w (range_settlements from to t) (range_overservices from to t)
        (range_reimbursements from to t) known (range_starts p from to t) u h

module _ (p : Periods) (w : Rows) (st : IsStore p w) (c : IsCalendar p) (from to : Time)
    (known : KnownServices) (t : Tables) where
  module _ (a : Time) (start : p.start_of a ≡ a) (low : day_start from ≤ a) (high : a < day_end to)
      (u : Tables) (same : u.settlements ≡ t.settlements) where
    new_network-events :
        new_network p w
          (range_settlements from to t)
          (range_overservices from to t)
          (range_reimbursements from to t)
          a
          u
        ≡ network_of_events a (a + p.span) t
    new_network-events = rw (
      group_by-get (settlement_start p) (range_settlements from to t) a,
      group_by-get (overservice_start p) (range_overservices from to t) a,
      group_by-get (reimbursement_start p) (range_reimbursements from to t) a,
      aggregate_block-order_rows (λ s. settlement_start p s =? a)
          (settlements_in (day_start from) (day_end to) t),
      group-rows p c from to t a start low high (λ s. s.block_timestamp) t.settlements.rows,
      group-rows p c from to t a start low high (λ o. o.block_timestamp) t.overservice_events.rows,
      group-rows p c from to t a start low high (λ r. r.block_timestamp)
          t.reimbursement_events.rows,
      suppliers_in_frame a (a + p.span) "" u t same,
    )

    pub network_row : w.network_of a (rebuild_periods p w from to known t u) ≡ (
        if has_events a (a + p.span) t
        then network_of_events a (a + p.span) t
        else w.network_of a u)
    network_row = elim (Bool-cases (has_events a (a + p.span) t)) [
      | inl some_event ↦ rw some_event (
          network_rebuilt p w _ _ _ st c known (range_starts p from to t)
            (range_starts_aligned p c from to t) a start u (range_starts-KeysDistinct p c from to t)
            (range_starts-has_events p c from to t a start low high ∙ some_event)
          ∙ new_network-events)
      | inr no_event ↦ rw no_event (
          network_untouched p w _ _ _ st c known (range_starts p from to t)
            (range_starts_aligned p c from to t) a start u
            (range_starts-has_events p c from to t a start low high ∙ no_event))
    ]

    new_service-events :
        (s : String)
        → new_service p w
            (range_settlements from to t)
            (range_overservices from to t)
            (range_reimbursements from to t)
            a
            s
            u
          ≡ service_of_events a (a + p.span) s t
    new_service-events s = rw (
      group_by-get {K = Time × String} (λ x. (settlement_start p x, x.service_id))
          (range_settlements from to t) (a, s),
      group_by-get {K = Time × String} (λ r. (reimbursement_start p r, r.service_id))
          (range_reimbursements from to t) (a, s),
      aggregate_block-order_rows (λ x. (settlement_start p x =? a) && (x.service_id =? s))
          (settlements_in (day_start from) (day_end to) t),
      service-rows p c from to t a start low high (λ x. x.block_timestamp) (λ x. x.service_id) s
          t.settlements.rows,
      service-rows p c from to t a start low high (λ r. r.block_timestamp) (λ r. r.service_id) s
          t.reimbursement_events.rows,
      suppliers_in_frame a (a + p.span) s u t same,
    )

    pub service_row :
        (s : String)
        → KeysDistinct (λ r. r) known
        → any (λ r. r =? s) known ≡ true
        → w.service_of a s (rebuild_periods p w from to known t u) ≡ (
            if has_events a (a + p.span) t
            then service_of_events a (a + p.span) s t
            else w.service_of a s u)
    service_row s d m = elim (Bool-cases (has_events a (a + p.span) t)) [
      | inl some_event ↦ rw some_event (
          service_rebuilt p w _ _ _ st c known (range_starts p from to t)
            (range_starts_aligned p c from to t) a start u (range_starts-KeysDistinct p c from to t)
            (range_starts-has_events p c from to t a start low high ∙ some_event) s d m
          ∙ new_service-events s)
      | inr no_event ↦ rw no_event (
          service_untouched p w _ _ _ st c known (range_starts p from to t)
            (range_starts_aligned p c from to t) a start u s
            (range_starts-has_events p c from to t a start low high ∙ no_event))
    ]

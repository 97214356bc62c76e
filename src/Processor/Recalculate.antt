-- ===== src/Processor/Recalculate.antt =====
-- processor/reporter.go: RecalculateSummariesForRange, which rebuilds the summaries of every hour and day
-- of a range from the events in the database. The code writes out the same steps for the hours and for
-- the days; here they stand once, over what the two differ in. Go walks the sets in any order.
pub mod Laws
pub mod Effect
pub mod Starts
pub mod Rebuilt
pub mod Range
pub mod Summaries
pub mod Outside
pub mod Agree
use pocket_settlement_monito.Prelude.{ℕ, ◌+◌, String, List, [], ◌∷◌}
use pocket_settlement_monito.Prelude.Eq.{nat_eq, string_eq, pair_eq}
use pocket_settlement_monito.Prelude.Maps.{get, group_by, or_nil, add_to}
use pocket_settlement_monito.Prelude.Exec.{Result, ok, err, Exec, pure, ◌>>=◌, ◌>>◌, for_each}
use pocket_settlement_monito.Store.Models.{
  Time, Settlement, OverserviceEvent, ReimbursementEvent, Totals,
}
use pocket_settlement_monito.Store.Db.{Db}
use pocket_settlement_monito.Store.Period.{
  count_active_suppliers, query_settlements_for_period, query_overservice_events_for_period,
  query_reimbursement_events_for_period,
}
use pocket_settlement_monito.Store.Summaries.{
  upsert_hourly_summary_service, upsert_hourly_summary_network, upsert_daily_summary_service,
  upsert_daily_summary_network,
}
use pocket_settlement_monito.Processor.Aggregate.{aggregate_block, totals_of}
use pocket_settlement_monito.Processor.Reporter.{
  KnownServices, hour, day, hour_start, day_start, day_end, learn,
}

-- Hours or days: the start of a time's period, its length, and the statements that write its rows.
pub record Periods : Type 0 where
  pub start_of : Time → Time
  pub span : ℕ
  pub upsert_service : Time → String → Totals → Exec Db Unit
  pub upsert_network : Time → Totals → Exec Db Unit

abbrev pub hours : Periods
hours = record {
  start_of = hour_start;
  span = hour;
  upsert_service = upsert_hourly_summary_service;
  upsert_network = upsert_hourly_summary_network;
}

abbrev pub days : Periods
days = record {
  start_of = day_start;
  span = day;
  upsert_service = upsert_daily_summary_service;
  upsert_network = upsert_daily_summary_network;
}

-- `distinctHours[hourStart(x.BlockTimestamp)] = struct{}{}` for each event.
unfoldable pub mark_starts : {R : Type 0} → (R → Time) → List R → List Time → List Time
mark_starts start [] seen = seen
mark_starts start (r ∷ rs) seen = mark_starts start rs (add_to (start r) seen)

module _ (p : Periods) where
  abbrev pub settlement_start : Settlement → Time
  settlement_start s = p.start_of s.block_timestamp

  abbrev pub overservice_start : OverserviceEvent → Time
  overservice_start o = p.start_of o.block_timestamp

  abbrev pub reimbursement_start : ReimbursementEvent → Time
  reimbursement_start r = p.start_of r.block_timestamp

module _ (p : Periods) (ss : List Settlement) (os : List OverserviceEvent)
    (rs : List ReimbursementEvent) where
  abbrev pub distinct_starts : List Time
  distinct_starts =
      mark_starts (reimbursement_start p) rs
        (mark_starts (overservice_start p) os (mark_starts (settlement_start p) ss []))

  -- `settlementsByHourService[key]` and its like.
  abbrev pub service_group : Time → String → List Settlement
  service_group start service = or_nil (
      get {K = Time × String} (start, service)
        (group_by (λ s. (settlement_start p s, s.service_id)) ss))

  abbrev pub reimbursement_group : Time → String → List ReimbursementEvent
  reimbursement_group start service = or_nil (
      get {K = Time × String} (start, service)
        (group_by (λ r. (reimbursement_start p r, r.service_id)) rs))

  unfoldable pub recalculate_service : Time → String → Exec Db Unit
  recalculate_service start service = do
    suppliers ← count_active_suppliers start (start + p.span) service
    p.upsert_service start service (
        totals_of
          (aggregate_block (service_group start service) [] (reimbursement_group start service))
          suppliers)

  unfoldable pub recalculate_network : Time → Exec Db Unit
  recalculate_network start = do
    suppliers ← count_active_suppliers start (start + p.span) ""
    p.upsert_network start (
        totals_of
          (aggregate_block (or_nil (get start (group_by (settlement_start p) ss)))
            (or_nil (get start (group_by (overservice_start p) os)))
            (or_nil (get start (group_by (reimbursement_start p) rs))))
          suppliers)

  unfoldable pub recalculate_period : KnownServices → Time → Exec Db Unit
  recalculate_period known start = do
    for_each (recalculate_service start) known
    recalculate_network start

-- The hours, then the days.
unfoldable pub recalculate_summaries :
    List Settlement → List OverserviceEvent → List ReimbursementEvent → KnownServices → Exec Db Unit
recalculate_summaries ss os rs known = do
  for_each (recalculate_period hours ss os rs known) (distinct_starts hours ss os rs)
  for_each (recalculate_period days ss os rs known) (distinct_starts days ss os rs)

abbrev pub Events : Type 0
Events = List Settlement × (List OverserviceEvent × List ReimbursementEvent)

-- The three SELECTs over the range.
unfoldable pub query_events : Time → Time → Exec Db Events
query_events from to = do
  ss ← query_settlements_for_period from to
  os ← query_overservice_events_for_period from to
  rs ← query_reimbursement_events_for_period from to
  pure (ss, (os, rs))

-- The services of the events join the reporter's, also where a later statement fails.
abbrev pub rebuild : KnownServices → Result Events × Db → Result (Unit {0}) × (Db × KnownServices)
rebuild known (err e, db) = (err e, (db, known))
rebuild known (ok (ss, (os, rs)), db) =
    let known' = learn ss known in
    let (r, db') = recalculate_summaries ss os rs known' db in (r, (db', known'))

-- The range is widened to whole days.
pub recalculate_summaries_for_range : Time → Time → Exec (Db × KnownServices) Unit
recalculate_summaries_for_range from to (db, known) =
    rebuild known (query_events (day_start from) (day_end to) db)

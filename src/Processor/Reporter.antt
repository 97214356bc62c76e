-- ===== src/Processor/Reporter.antt =====
-- processor/reporter.go: NewReporter and ReportBlock, the summaries that each block adds to. The set of
-- known services is a list; Go walks it in any order.
pub mod Effect
pub mod Report
pub mod Keeps
pub mod Summaries
use pocket_settlement_monito.Prelude.{
  ℕ, ◌+◌, ◌-◌, ◌*◌, ◌%◌, String, Bool, true, false, List, [], ◌∷◌, if◌then◌else◌,
}
use pocket_settlement_monito.Prelude.Eq.{◌=?◌, string_eq}
use pocket_settlement_monito.Prelude.Maps.{get, group_by, or_nil, add_to}
use pocket_settlement_monito.Prelude.Words.{Int64}
use pocket_settlement_monito.Prelude.Exec.{
  Error, Result, ok, err, Exec, pure, ◌>>=◌, ◌>>◌, for_each,
}
use pocket_settlement_monito.Store.Models.{
  Time, nanos_per_second, Settlement, OverserviceEvent, ReimbursementEvent,
}
use pocket_settlement_monito.Store.Db.{Db}
use pocket_settlement_monito.Store.Period.{count_active_suppliers, distinct_service_ids}
use pocket_settlement_monito.Store.Summaries.{
  get_hourly_summary_service, get_hourly_summary_network, get_daily_summary_service,
  get_daily_summary_network, upsert_hourly_summary_service, upsert_hourly_summary_network,
  upsert_daily_summary_service, upsert_daily_summary_network,
}
use pocket_settlement_monito.Processor.Aggregate.{aggregate_block, accumulate}

abbrev pub hour : ℕ
hour = 3600 * nanos_per_second

abbrev pub day : ℕ
day = 24 * hour

-- `Truncate` counts from the zero time, which starts an hour and a day of UTC.
abbrev pub hour_start : Time → Time
hour_start ts = ts - ts % hour

abbrev pub day_start : Time → Time
day_start ts = ts - ts % day

abbrev pub hour_end : Time → Time
hour_end ts = hour_start ts + hour

abbrev pub day_end : Time → Time
day_end ts = day_start ts + day

abbrev pub KnownServices : Type 0
KnownServices = List String

-- The block's services join the known ones; "" does not.
unfoldable pub learn : List Settlement → KnownServices → KnownServices
learn [] known = known
learn (s ∷ rest) known =
    learn rest (if s.service_id =? "" then known else add_to s.service_id known)

add_ids : List String → KnownServices → KnownServices
add_ids [] known = known
add_ids (id ∷ ids) known = add_ids ids (add_to id known)

-- The services of the settlements in the database, "" too.
pub new_reporter : Exec Db KnownServices
new_reporter = do ids ← distinct_service_ids; pure (add_ids ids [])

-- `groupSettlementsByService(settlements)[serviceID]`, nil for a missing key.
abbrev pub settlements_of : String → List Settlement → List Settlement
settlements_of service ss = or_nil (get service (group_by (λ s. s.service_id) ss))

abbrev pub reimbursements_of : String → List ReimbursementEvent → List ReimbursementEvent
reimbursements_of service rs = or_nil (get service (group_by (λ r. r.service_id) rs))

module _ (ts : Time) (ss : List Settlement) (os : List OverserviceEvent)
    (rs : List ReimbursementEvent) where
  unfoldable pub report_hourly_service : String → Exec Db Unit
  report_hourly_service service = do
    current ← get_hourly_summary_service (hour_start ts) service
    suppliers ← count_active_suppliers (hour_start ts) (hour_end ts) service
    upsert_hourly_summary_service (hour_start ts) service (
        accumulate current
          (aggregate_block (settlements_of service ss) [] (reimbursements_of service rs)) suppliers)

  unfoldable pub report_hourly_network : Exec Db Unit
  report_hourly_network = do
    current ← get_hourly_summary_network (hour_start ts)
    suppliers ← count_active_suppliers (hour_start ts) (hour_end ts) ""
    upsert_hourly_summary_network (hour_start ts)
        (accumulate current (aggregate_block ss os rs) suppliers)

  unfoldable pub report_daily_service : String → Exec Db Unit
  report_daily_service service = do
    current ← get_daily_summary_service (day_start ts) service
    suppliers ← count_active_suppliers (day_start ts) (day_end ts) service
    upsert_daily_summary_service (day_start ts) service (
        accumulate current
          (aggregate_block (settlements_of service ss) [] (reimbursements_of service rs)) suppliers)

  unfoldable pub report_daily_network : Exec Db Unit
  report_daily_network = do
    current ← get_daily_summary_network (day_start ts)
    suppliers ← count_active_suppliers (day_start ts) (day_end ts) ""
    upsert_daily_summary_network (day_start ts)
        (accumulate current (aggregate_block ss os rs) suppliers)

  -- The four parts, in the code's order, for a given set of services.
  unfoldable pub report_summaries : KnownServices → Exec Db Unit
  report_summaries known = do
    for_each report_hourly_service known
    report_hourly_network
    for_each report_daily_service known
    report_daily_network

-- The reporter's own set of services stays as it is now, also where a statement fails.
abbrev with_known :
    KnownServices → Result (Unit {0}) × Db → Result (Unit {0}) × (Db × KnownServices)
with_known known (r, db) = (r, (db, known))

pub report_block :
    Time
    → List Settlement
    → List OverserviceEvent
    → List ReimbursementEvent
    → Exec (Db × KnownServices) Unit
report_block ts ss os rs (db, known) =
    let known' = learn ss known in with_known known' (report_summaries ts ss os rs known' db)

-- ===== src/Store/Query.antt =====
-- store/query.go: the SELECTs of the query commands, with the conditions that a filter adds. A field of
-- a filter with its zero value adds none.
pub mod Laws
pub mod Conditions
pub mod Filtered
use pocket_settlement_monito.Prelude.{
  ℕ, String, Bool, true, false, ◌&&◌, List, [], ◌∷◌, map, select, leb, ltb, if◌then◌else◌, take,
}
use pocket_settlement_monito.Prelude.Eq.{◌=?◌, nat_eq, string_eq}
use pocket_settlement_monito.Prelude.Words.{Int64, slt, sle}
use pocket_settlement_monito.Prelude.Sorting.{sort}
use pocket_settlement_monito.Prelude.Exec.{Exec}
use pocket_settlement_monito.Store.Models.{
  Time, rfc3339, parse_rfc3339, EventType, settled, expired, slashed, discarded, Settlement,
  OverserviceEvent, ReimbursementEvent, SummaryRow, HourlySummaryService, HourlySummaryNetwork,
  DailySummaryService, DailySummaryNetwork, Totals,
}
use pocket_settlement_monito.Store.Tables.{Tables}
use pocket_settlement_monito.Store.Db.{Db, query}

pub record SettlementFilters : Type 0 where
  pub supplier_operator_address : String
  pub service_id : String
  pub event_type : String
  pub from_time : Time
  pub to_time : Time
  pub from_height : Int64
  pub to_height : Int64
  pub limit : Int64

pub record OverserviceFilters : Type 0 where
  pub supplier_operator_address : String
  pub application_address : String
  pub from_time : Time
  pub to_time : Time
  pub from_height : Int64
  pub to_height : Int64
  pub limit : Int64

pub record ReimbursementFilters : Type 0 where
  pub supplier_operator_address : String
  pub service_id : String
  pub application_address : String
  pub from_time : Time
  pub to_time : Time
  pub from_height : Int64
  pub to_height : Int64
  pub limit : Int64

pub record SummaryFilters : Type 0 where
  pub service_id : String
  pub from_time : Time
  pub to_time : Time
  pub limit : Int64

-- The column's text.
abbrev pub type_text : EventType → String
type_text settled = "settled"
type_text expired = "expired"
type_text slashed = "slashed"
type_text discarded = "discarded"

-- AND column = ?
abbrev pub has_text : String → String → Bool
has_text wanted column = if wanted =? "" then true else column =? wanted

-- AND block_timestamp >= ?, where `IsZero()` is false.
abbrev pub not_before : Time → ℕ → Bool
not_before from column = if from =? 0 then true else leb (rfc3339 from) column

-- AND block_timestamp < ?
abbrev pub before_time : Time → ℕ → Bool
before_time to column = if to =? 0 then true else ltb column (rfc3339 to)

-- AND block_height >= ?
abbrev pub at_least : Int64 → Int64 → Bool
at_least from column = if slt 0 from then sle from column else true

-- AND block_height <= ?
abbrev pub at_most : Int64 → Int64 → Bool
at_most to column = if slt 0 to then sle column to else true

-- ORDER BY block_height DESC, id DESC: whether a row with height `h` and id `i` stays before the other.
abbrev pub stays_before : Int64 → Int64 → Int64 → Int64 → Bool
stays_before h i h' i' = if slt h' h then true else if slt h h' then false else sle i' i

-- WHERE, ORDER BY and LIMIT.
unfoldable pub select_rows : {R : Type 0} → (R → Bool) → (R → R → Bool) → Int64 → List R → List R
select_rows wanted before limit rows =
    let sorted = sort before (select wanted rows) in
    if slt 0 limit then take limit sorted else sorted

abbrev pub wants_settlement : SettlementFilters → Settlement → Bool
wants_settlement f s =
    has_text f.event_type (type_text s.event_type)
    && (has_text f.supplier_operator_address s.supplier_operator_address
        && (has_text f.service_id s.service_id
            && (not_before f.from_time (rfc3339 s.block_timestamp)
                && (before_time f.to_time (rfc3339 s.block_timestamp)
                    && (at_least f.from_height s.block_height
                        && at_most f.to_height s.block_height)))))

abbrev pub wants_overservice : OverserviceFilters → OverserviceEvent → Bool
wants_overservice f o =
    has_text f.supplier_operator_address o.supplier_operator_address
    && (has_text f.application_address o.application_address
        && (not_before f.from_time (rfc3339 o.block_timestamp)
            && (before_time f.to_time (rfc3339 o.block_timestamp)
                && (at_least f.from_height o.block_height && at_most f.to_height o.block_height))))

abbrev pub wants_reimbursement : ReimbursementFilters → ReimbursementEvent → Bool
wants_reimbursement f r =
    has_text f.supplier_operator_address r.supplier_operator_address
    && (has_text f.service_id r.service_id
        && (has_text f.application_address r.application_address
            && (not_before f.from_time (rfc3339 r.block_timestamp)
                && (before_time f.to_time (rfc3339 r.block_timestamp)
                    && (at_least f.from_height r.block_height
                        && at_most f.to_height r.block_height)))))

-- A row as it is scanned: its time is parsed from the column's text.
abbrev pub scan_settlement : Settlement → Settlement
scan_settlement s = record s { block_timestamp = parse_rfc3339 (rfc3339 s.block_timestamp) }

abbrev pub scan_overservice : OverserviceEvent → OverserviceEvent
scan_overservice o = record o { block_timestamp = parse_rfc3339 (rfc3339 o.block_timestamp) }

abbrev pub scan_reimbursement : ReimbursementEvent → ReimbursementEvent
scan_reimbursement r = record r { block_timestamp = parse_rfc3339 (rfc3339 r.block_timestamp) }

abbrev pub settlement_order : Settlement → Settlement → Bool
settlement_order a b = stays_before a.block_height a.id b.block_height b.id

abbrev pub overservice_order : OverserviceEvent → OverserviceEvent → Bool
overservice_order a b = stays_before a.block_height a.id b.block_height b.id

abbrev pub reimbursement_order : ReimbursementEvent → ReimbursementEvent → Bool
reimbursement_order a b = stays_before a.block_height a.id b.block_height b.id

unfoldable pub query_settlements_filtered : SettlementFilters → Exec Db (List Settlement)
query_settlements_filtered f = query λ t.
    map scan_settlement
      (select_rows (wants_settlement f) settlement_order f.limit t.settlements.rows)

unfoldable pub query_overservice_filtered : OverserviceFilters → Exec Db (List OverserviceEvent)
query_overservice_filtered f = query λ t.
    map scan_overservice
      (select_rows (wants_overservice f) overservice_order f.limit t.overservice_events.rows)

unfoldable pub query_reimbursements_filtered :
    ReimbursementFilters → Exec Db (List ReimbursementEvent)
query_reimbursements_filtered f = query λ t.
    map scan_reimbursement
      (select_rows (wants_reimbursement f) reimbursement_order f.limit t.reimbursement_events.rows)

-- A summary struct of the result: the period's start, the service and the totals.
abbrev pub SummaryResult : Type 0
SummaryResult = Time × (String × Totals)

-- ORDER BY hour_start DESC
abbrev pub later_period : ℕ → ℕ → Bool
later_period a b = leb b a

abbrev pub wants_service : SummaryFilters → SummaryRow (ℕ × String) → Bool
wants_service f r =
    has_text f.service_id r.key.1
    && (not_before f.from_time r.key.0 && before_time f.to_time r.key.0)

abbrev pub wants_network : SummaryFilters → SummaryRow ℕ → Bool
wants_network f r = not_before f.from_time r.key && before_time f.to_time r.key

abbrev pub service_order : SummaryRow (ℕ × String) → SummaryRow (ℕ × String) → Bool
service_order a b = later_period a.key.0 b.key.0

abbrev pub network_order : SummaryRow ℕ → SummaryRow ℕ → Bool
network_order a b = later_period a.key b.key

abbrev pub scan_service_summary : SummaryRow (ℕ × String) → SummaryResult
scan_service_summary r = (parse_rfc3339 r.key.0, (r.key.1, r.totals))

abbrev pub scan_network_summary : SummaryRow ℕ → SummaryResult
scan_network_summary r = (parse_rfc3339 r.key, ("network", r.totals))

abbrev pub service_summaries : SummaryFilters → List (SummaryRow (ℕ × String)) → List SummaryResult
service_summaries f rows =
    map scan_service_summary (select_rows (wants_service f) service_order f.limit rows)

abbrev pub network_summaries : SummaryFilters → List (SummaryRow ℕ) → List SummaryResult
network_summaries f rows =
    map scan_network_summary (select_rows (wants_network f) network_order f.limit rows)

-- Without a service the network's table is read.
unfoldable pub query_hourly_summaries_filtered : SummaryFilters → Exec Db (List SummaryResult)
query_hourly_summaries_filtered f =
    if f.service_id =? ""
    then query (λ t. network_summaries f t.hourly_summaries_network)
    else query (λ t. service_summaries f t.hourly_summaries_service)

unfoldable pub query_daily_summaries_filtered : SummaryFilters → Exec Db (List SummaryResult)
query_daily_summaries_filtered f =
    if f.service_id =? ""
    then query (λ t. network_summaries f t.daily_summaries_network)
    else query (λ t. service_summaries f t.daily_summaries_service)

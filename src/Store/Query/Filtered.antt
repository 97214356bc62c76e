-- ===== src/Store/Query/Filtered.antt =====
-- Each query of the CLI answers the SELECT that its filter means.
use pocket_settlement_monito.Prelude.{ℕ, String, ◌≡◌, ◌≢◌, List}
use pocket_settlement_monito.Prelude.Eq.{nat_eq, string_eq}
use pocket_settlement_monito.Store.Models.{SummaryRow}
use pocket_settlement_monito.Store.Tables.{Tables}
use pocket_settlement_monito.Store.Db.{Db, query}
use pocket_settlement_monito.Store.Query.{
  SettlementFilters, OverserviceFilters, ReimbursementFilters, SummaryFilters, wants_network,
  wants_service, network_order, service_order, scan_network_summary, scan_service_summary,
  network_summaries, service_summaries, query_hourly_summaries_filtered,
  query_daily_summaries_filtered, wants_settlement, wants_overservice, wants_reimbursement,
  scan_settlement, scan_overservice, scan_reimbursement, settlement_order, overservice_order,
  reimbursement_order, query_settlements_filtered, query_overservice_filtered,
  query_reimbursements_filtered,
}
use pocket_settlement_monito.Store.Query.Laws.{
  Answers, query-Answers, later_period_total, later_period_trans, stays_before_total,
  stays_before_trans,
}
use pocket_settlement_monito.Store.Query.Conditions.{
  has_text_iff, not_text, not_before_iff, before_time_iff, and_iff, WantsSettlement,
  WantsOverservice, WantsServiceSummary, WantsNetworkSummary, WantsReimbursement,
  wants_settlement_iff, wants_overservice_iff, wants_reimbursement_iff,
}

-- A query of settlements returns a failed statement's error, or the rows that answer the SELECT: those
-- whose columns meet every condition of the filter, by height and then by id, the greatest first, as many
-- as the limit admits where it is positive and else all; each is given with its time cut to the second. No
-- table changes.
pub query_settlements_filtered_lem :
    (f : SettlementFilters) (db : Db)
    → Answers
        (WantsSettlement f)
        settlement_order
        f.limit
        db.tables.settlements.rows
        scan_settlement
        db
        (query_settlements_filtered f db)
unfolding query_settlements_filtered
query_settlements_filtered_lem f db =
    query-Answers (λ t. t.settlements.rows) scan_settlement (WantsSettlement f) (wants_settlement f)
      (wants_settlement_iff f) settlement_order
      (λ x y. stays_before_total x.block_height x.id y.block_height y.id)
      (λ x y z. stays_before_trans x.block_height x.id y.block_height y.id z.block_height z.id)
      f.limit db

pub query_overservice_filtered_lem :
    (f : OverserviceFilters) (db : Db)
    → Answers
        (WantsOverservice f)
        overservice_order
        f.limit
        db.tables.overservice_events.rows
        scan_overservice
        db
        (query_overservice_filtered f db)
unfolding query_overservice_filtered
query_overservice_filtered_lem f db =
    query-Answers (λ t. t.overservice_events.rows) scan_overservice (WantsOverservice f)
      (wants_overservice f) (wants_overservice_iff f) overservice_order
      (λ x y. stays_before_total x.block_height x.id y.block_height y.id)
      (λ x y z. stays_before_trans x.block_height x.id y.block_height y.id z.block_height z.id)
      f.limit db

pub query_reimbursements_filtered_lem :
    (f : ReimbursementFilters) (db : Db)
    → Answers
        (WantsReimbursement f)
        reimbursement_order
        f.limit
        db.tables.reimbursement_events.rows
        scan_reimbursement
        db
        (query_reimbursements_filtered f db)
unfolding query_reimbursements_filtered
query_reimbursements_filtered_lem f db =
    query-Answers (λ t. t.reimbursement_events.rows) scan_reimbursement (WantsReimbursement f)
      (wants_reimbursement f) (wants_reimbursement_iff f) reimbursement_order
      (λ x y. stays_before_total x.block_height x.id y.block_height y.id)
      (λ x y z. stays_before_trans x.block_height x.id y.block_height y.id z.block_height z.id)
      f.limit db

-- A query of summaries reads the table of the services where the filter names one, and then it answers
-- for that service's rows; else it answers for the network's rows, under the name "network". The rows come
-- with the latest period first. This holds for the hours and for the days; as before an error is that of a
-- failed statement, and no table changes.
pub query_summaries_filtered :
    (f : SummaryFilters) (db : Db)
    → (f.service_id ≡ ""
        → Answers
            (WantsNetworkSummary f)
            network_order
            f.limit
            db.tables.hourly_summaries_network
            scan_network_summary
            db
            (query_hourly_summaries_filtered f db)
          × Answers
              (WantsNetworkSummary f)
              network_order
              f.limit
              db.tables.daily_summaries_network
              scan_network_summary
              db
              (query_daily_summaries_filtered f db))
      × (f.service_id ≢ ""
          → Answers
              (WantsServiceSummary f)
              service_order
              f.limit
              db.tables.hourly_summaries_service
              scan_service_summary
              db
              (query_hourly_summaries_filtered f db)
            × Answers
                (WantsServiceSummary f)
                service_order
                f.limit
                db.tables.daily_summaries_service
                scan_service_summary
                db
                (query_daily_summaries_filtered f db))
unfolding query_hourly_summaries_filtered query_daily_summaries_filtered
query_summaries_filtered f db = (
  λ e. rw ((string_eq.beq_iff f.service_id "").1 e) (
    network_answer (λ t. t.hourly_summaries_network),
    network_answer (λ t. t.daily_summaries_network),
  ),
  λ n. rw (not_text f.service_id "" n) (
    service_answer (λ t. t.hourly_summaries_service),
    service_answer (λ t. t.daily_summaries_service),
  ),
)
  where
    network_answer :
        (table : Tables → List (SummaryRow ℕ))
        → Answers
            (WantsNetworkSummary f)
            network_order
            f.limit
            (table db.tables)
            scan_network_summary
            db
            (query (λ t. network_summaries f (table t)) db)
    network_answer table =
        query-Answers table scan_network_summary (WantsNetworkSummary f) (wants_network f)
          (λ r. and_iff (not_before_iff f.from_time r.key) (before_time_iff f.to_time r.key))
          network_order (λ x y. later_period_total x.key y.key)
          (λ x y z. later_period_trans x.key y.key z.key) f.limit db

    service_answer :
        (table : Tables → List (SummaryRow (ℕ × String)))
        → Answers
            (WantsServiceSummary f)
            service_order
            f.limit
            (table db.tables)
            scan_service_summary
            db
            (query (λ t. service_summaries f (table t)) db)
    service_answer table =
        query-Answers table scan_service_summary (WantsServiceSummary f) (wants_service f)
          (λ r.
            and_iff (has_text_iff f.service_id r.key.1)
              (and_iff (not_before_iff f.from_time r.key.0) (before_time_iff f.to_time r.key.0)))
          service_order (λ x y. later_period_total x.key.0 y.key.0)
          (λ x y z. later_period_trans x.key.0 y.key.0 z.key.0) f.limit db

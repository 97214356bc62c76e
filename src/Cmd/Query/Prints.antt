-- ===== src/Cmd/Query/Prints.antt =====
-- What the query commands print and return.
use pocket_settlement_monito.Prelude.{String, List, []}
use pocket_settlement_monito.Prelude.Eq.{string_eq}
use pocket_settlement_monito.Prelude.Exec.{Result}
use pocket_settlement_monito.Subscriber.Types.{Bytes}
use pocket_settlement_monito.Store.Models.{Time, Settlement, OverserviceEvent, ReimbursementEvent}
use pocket_settlement_monito.Store.Db.{Db}
use pocket_settlement_monito.Store.Query.{
  scan_settlement, scan_overservice, scan_reimbursement, settlement_order, overservice_order,
  reimbursement_order, query_settlements_filtered, query_overservice_filtered,
  query_reimbursements_filtered,
}
use pocket_settlement_monito.Store.Query.Conditions.{
  WantsSettlement, WantsOverservice, WantsReimbursement,
}
use pocket_settlement_monito.Store.Query.Filtered.{
  query_settlements_filtered_lem, query_overservice_filtered_lem, query_reimbursements_filtered_lem,
}
use pocket_settlement_monito.Cmd.Cells.{
  settlement_columns, slash_columns, overservice_columns, reimbursement_columns, settlement_cells,
  slash_cells, overservice_cells, reimbursement_cells,
}
use pocket_settlement_monito.Cmd.Query.{
  QueryFlags, Bounds, settlement_filters, overservice_filters, reimbursement_filters,
  run_query_settlements, run_query_slashes, run_query_overservice, run_query_reimbursements,
}
use pocket_settlement_monito.Cmd.Query.Ends.{Scanned, Outcome, Ends, Answers-Outcome, run-Ends}

-- The results that each command is to print, of the rows of its table.
abbrev pub SettlementResults : String → QueryFlags → Db → Bounds → List Settlement → Type 0
SettlementResults event_type q db b =
    Scanned (WantsSettlement (settlement_filters event_type q b)) settlement_order q.limit
      db.tables.settlements.rows scan_settlement

abbrev pub OverserviceResults : QueryFlags → Db → Bounds → List OverserviceEvent → Type 0
OverserviceResults q db b =
    Scanned (WantsOverservice (overservice_filters q b)) overservice_order q.limit
      db.tables.overservice_events.rows scan_overservice

abbrev pub ReimbursementResults : QueryFlags → Db → Bounds → List ReimbursementEvent → Type 0
ReimbursementResults q db b =
    Scanned (WantsReimbursement (reimbursement_filters q b)) reimbursement_order q.limit
      db.tables.reimbursement_events.rows scan_reimbursement

settlements-Outcome :
    (event_type : String) (q : QueryFlags) (db : Db) (b : Bounds)
    → Outcome db
        (SettlementResults event_type q db b)
        (query_settlements_filtered (settlement_filters event_type q b) db).0
settlements-Outcome event_type q db b =
    Answers-Outcome _ settlement_order q.limit _ scan_settlement db
      (query_settlements_filtered (settlement_filters event_type q b))
      (query_settlements_filtered_lem (settlement_filters event_type q b) db)

-- Each of the four commands over rows, settlements, slashes, overservice and reimbursements, refuses an
-- output format that is not one of the three, an error from the opening of the store and a bound that does
-- not parse, and prints nothing then, nor where a statement fails. Else it returns no error and prints, as
-- its format asks, a row for each row that the SELECT of its flags has for an answer: slashes has those of
-- type "slashed" only.
pub run_query_lem :
    (format_time : Time → Bytes) (q : QueryFlags) (opened : Result Db)
    → Ends q opened [] settlement_columns
        (settlement_cells format_time q.output)
        (SettlementResults "" q)
        (run_query_settlements format_time q opened)
      × Ends q opened [] slash_columns
          (slash_cells format_time q.output)
          (SettlementResults "slashed" q)
          (run_query_slashes format_time q opened)
      × Ends q opened [] overservice_columns
          (overservice_cells format_time q.output)
          (OverserviceResults q)
          (run_query_overservice format_time q opened)
      × Ends q opened [] reimbursement_columns
          (reimbursement_cells format_time q.output)
          (ReimbursementResults q)
          (run_query_reimbursements format_time q opened)
unfolding run_query_settlements run_query_slashes run_query_overservice run_query_reimbursements
run_query_lem format_time q opened = (
  run-Ends q [] settlement_columns (settlement_cells format_time q.output) _ _
      (settlements-Outcome "" q) opened,
  run-Ends q [] slash_columns (slash_cells format_time q.output) _ _
      (settlements-Outcome "slashed" q) opened,
  run-Ends q [] overservice_columns (overservice_cells format_time q.output) _ _
      (λ db b.
        Answers-Outcome _ _ q.limit _ _ db (query_overservice_filtered (overservice_filters q b))
          (query_overservice_filtered_lem (overservice_filters q b) db))
      opened,
  run-Ends q [] reimbursement_columns (reimbursement_cells format_time q.output) _ _
      (λ db b.
        Answers-Outcome _ _ q.limit _ _ db
          (query_reimbursements_filtered (reimbursement_filters q b))
          (query_reimbursements_filtered_lem (reimbursement_filters q b) db))
      opened,
)

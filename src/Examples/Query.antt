-- ===== src/Examples/Query.antt =====
-- Queries of the CLI and their output at small inputs.

use pocket_settlement_monito.Store.Query.{
  SettlementFilters, query_settlements_filtered, scan_settlement, settlement_order,
}
use pocket_settlement_monito.Store.Query.Laws.{Answers}
use pocket_settlement_monito.Store.Query.Conditions.{WantsSettlement}
use pocket_settlement_monito.Store.Query.Filtered.{query_settlements_filtered_lem}
use pocket_settlement_monito.Examples.{filled_db}
use pocket_settlement_monito.Prelude.{[], some, ◌/◌}
use pocket_settlement_monito.Prelude.Exec.{ok}
use pocket_settlement_monito.Subscriber.Types.{Bytes}
use pocket_settlement_monito.Store.Models.{Time}
use pocket_settlement_monito.Notify.Format.{print_int}
use pocket_settlement_monito.Cmd.Resolve.{date, datetime}
use pocket_settlement_monito.Cmd.Cells.{
  settlement_columns, slash_columns, overservice_columns, reimbursement_columns, settlement_cells,
  slash_cells, overservice_cells, reimbursement_cells,
}
use pocket_settlement_monito.Cmd.Query.{
  QueryFlags, run_query_settlements, run_query_slashes, run_query_overservice,
  run_query_reimbursements, run_query_summaries,
}
use pocket_settlement_monito.Cmd.Query.Ends.{Ends}
use pocket_settlement_monito.Cmd.Query.Prints.{
  SettlementResults, OverserviceResults, ReimbursementResults, run_query_lem,
}
use pocket_settlement_monito.Cmd.Query.Summaries.{SummariesEnd, run_query_summaries_lem}

-- The last two settlements of a supplier.
abbrev of_supplier : SettlementFilters
of_supplier = record {
  supplier_operator_address = "supplier";
  service_id = "";
  event_type = "settled";
  from_time = 0;
  to_time = 0;
  from_height = 90;
  to_height = 0;
  limit = 2;
}

query_settlements_filtered_lem_example :
    Answers
      (WantsSettlement of_supplier)
      settlement_order
      2
      filled_db.tables.settlements.rows
      scan_settlement
      filled_db
      (query_settlements_filtered of_supplier filled_db)
query_settlements_filtered_lem_example = query_settlements_filtered_lem of_supplier filled_db

-- All rows of two days, cut at two, as JSON.
abbrev of_days : QueryFlags
of_days = record {
  supplier = "";
  service = "eth";
  from = some (date 0);
  to = some (datetime 172800000000000);
  limit = 2;
  output = "json";
}

-- The count of seconds, in place of a layout.
abbrev seconds : Time → Bytes
seconds t = print_int (t / 1000000000)

run_query_lem_example :
    Ends of_days
      (ok filled_db)
      []
      settlement_columns
      (settlement_cells seconds "json")
      (SettlementResults "" of_days)
      (run_query_settlements seconds of_days (ok filled_db))
    × Ends of_days
        (ok filled_db)
        []
        slash_columns
        (slash_cells seconds "json")
        (SettlementResults "slashed" of_days)
        (run_query_slashes seconds of_days (ok filled_db))
    × Ends of_days
        (ok filled_db)
        []
        overservice_columns
        (overservice_cells seconds "json")
        (OverserviceResults of_days)
        (run_query_overservice seconds of_days (ok filled_db))
    × Ends of_days
        (ok filled_db)
        []
        reimbursement_columns
        (reimbursement_cells seconds "json")
        (ReimbursementResults of_days)
        (run_query_reimbursements seconds of_days (ok filled_db))
run_query_lem_example = run_query_lem seconds of_days (ok filled_db)

run_query_summaries_lem_example :
    SummariesEnd seconds seconds "hourly" of_days
      (ok filled_db)
      (run_query_summaries seconds seconds "hourly" of_days (ok filled_db))
run_query_summaries_lem_example =
    run_query_summaries_lem seconds seconds "hourly" of_days (ok filled_db)

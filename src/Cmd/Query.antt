-- ===== src/Cmd/Query.antt =====
-- cmd/cmd_query*.go: the query commands. The flags are as cobra gives them, with --from and --to as they
-- parse; what store.Open returned is an argument.
pub mod Ends
pub mod Prints
pub mod Summaries
use pocket_settlement_monito.Prelude.{
  ℕ, String, Bool, true, false, ◌||◌, List, [], ◌∷◌, ◌++◌, map, Option, none, some, ltb, length,
  take, if◌then◌else◌,
}
use pocket_settlement_monito.Prelude.Eq.{◌=?◌, string_eq}
use pocket_settlement_monito.Prelude.Words.{Int64, sub64}
use pocket_settlement_monito.Prelude.Exec.{Error, Result, ok, err}
use pocket_settlement_monito.Subscriber.Types.{Bytes}
use pocket_settlement_monito.Store.Models.{Time, Settlement, OverserviceEvent, ReimbursementEvent}
use pocket_settlement_monito.Store.Db.{Db}
use pocket_settlement_monito.Store.Query.{
  SettlementFilters, OverserviceFilters, ReimbursementFilters, SummaryFilters, type_text,
  SummaryResult, query_settlements_filtered, query_overservice_filtered,
  query_reimbursements_filtered, query_hourly_summaries_filtered, query_daily_summaries_filtered,
}
use pocket_settlement_monito.Notify.Format.{print_int}
use pocket_settlement_monito.Notify.Texts.{codes}
use pocket_settlement_monito.Cmd.Resolve.{HeightFlag, height, date, datetime, neither}
use pocket_settlement_monito.Cmd.Output.{
  Chunk, OutputWriter, new_output_writer, write_header, unflushed, print_rows,
}
use pocket_settlement_monito.Cmd.Cells.{
  trunc_addr, shown, settlement_columns, slash_columns, overservice_columns, reimbursement_columns,
  summary_columns, settlement_cells, slash_cells, overservice_cells, reimbursement_cells,
  summary_cells,
}

-- `none` is a flag that is not given, or empty.
pub record QueryFlags : Type 0 where
  pub supplier : String
  pub service : String
  pub from : Option HeightFlag
  pub to : Option HeightFlag
  pub limit : Int64
  pub output : String

-- The four values that parseQueryFilters returns.
pub record Bounds : Type 0 where
  pub from_time : Time
  pub to_time : Time
  pub from_height : Int64
  pub to_height : Int64

-- The time and the height of one flag; `none` is its error.
unfoldable pub parse_bound : Option HeightFlag → Option (Time × Int64)
parse_bound none = some (0, 0)
parse_bound (some (height h)) = some (0, h)
parse_bound (some (date start)) = some (start, 0)
parse_bound (some (datetime time)) = some (time, 0)
parse_bound (some neither) = none

abbrev pub bounds : Option (Time × Int64) → Option (Time × Int64) → Option Bounds
bounds (some (from, low)) (some (to, high)) =
    some (record { from_time = from; to_time = to; from_height = low; to_height = high })
bounds (some from) none = none
bounds none to = none

abbrev pub parse_query_filters : QueryFlags → Option Bounds
parse_query_filters q = bounds (parse_bound q.from) (parse_bound q.to)

abbrev pub validate_output_format : String → Bool
validate_output_format output = output =? "table" || (output =? "json" || output =? "csv")

pub data QueryError : Type 0 where
  invalid_output : QueryError
  invalid_period : QueryError
  opening : Error → QueryError
  invalid_bound : QueryError
  querying : Error → QueryError

-- What a command has printed, and the error that it returns.
pub record QueryRun : Type 0 where
  pub printed : List Chunk
  pub error : Option QueryError

abbrev pub refused : QueryError → QueryRun
refused e = record { printed = []; error = some e }

abbrev pub with_bounds : (Bounds → QueryRun) → Option Bounds → QueryRun
with_bounds body none = refused invalid_bound
with_bounds body (some b) = body b

abbrev pub with_store : QueryFlags → Result Db → (Db → Bounds → QueryRun) → QueryRun
with_store q (err e) body = refused (opening e)
with_store q (ok db) body = with_bounds (body db) (parse_query_filters q)

-- The rows of a query that succeeded, or its error with what was printed before the query.
abbrev pub print_results :
    {R : Type 0} → List Chunk → String → List Bytes → (R → List Bytes) → Result (List R) → QueryRun
print_results before output columns cells (err e) = record {
  printed = before;
  error = some (querying e);
}
print_results before output columns cells (ok results) = record {
  printed = print_rows output columns (map cells results);
  error = none;
}

-- The header of `summaries` is written before its query.
abbrev pub summary_header : String → List Chunk
summary_header output = unflushed (write_header (new_output_writer output summary_columns))

-- The filter of `query settlements`, and with "slashed" that of `query slashes`.
abbrev pub settlement_filters : String → QueryFlags → Bounds → SettlementFilters
settlement_filters event_type q b = record {
  supplier_operator_address = q.supplier;
  service_id = q.service;
  event_type = event_type;
  from_time = b.from_time;
  to_time = b.to_time;
  from_height = b.from_height;
  to_height = b.to_height;
  limit = q.limit;
}

abbrev pub overservice_filters : QueryFlags → Bounds → OverserviceFilters
overservice_filters q b = record {
  supplier_operator_address = q.supplier;
  application_address = "";
  from_time = b.from_time;
  to_time = b.to_time;
  from_height = b.from_height;
  to_height = b.to_height;
  limit = q.limit;
}

abbrev pub reimbursement_filters : QueryFlags → Bounds → ReimbursementFilters
reimbursement_filters q b = record {
  supplier_operator_address = q.supplier;
  service_id = q.service;
  application_address = "";
  from_time = b.from_time;
  to_time = b.to_time;
  from_height = b.from_height;
  to_height = b.to_height;
  limit = q.limit;
}

abbrev pub summary_filters : QueryFlags → Bounds → SummaryFilters
summary_filters q b = record {
  service_id = q.service;
  from_time = b.from_time;
  to_time = b.to_time;
  limit = q.limit;
}

module _ (format_time : Time → Bytes) where
  unfoldable pub run_query_settlements : QueryFlags → Result Db → QueryRun
  run_query_settlements q opened =
      if validate_output_format q.output
      then with_store q opened (λ db b.
        print_results [] q.output settlement_columns (settlement_cells format_time q.output)
          (query_settlements_filtered (settlement_filters "" q b) db).0)
      else refused invalid_output

  unfoldable pub run_query_slashes : QueryFlags → Result Db → QueryRun
  run_query_slashes q opened =
      if validate_output_format q.output
      then with_store q opened (λ db b.
        print_results [] q.output slash_columns (slash_cells format_time q.output)
          (query_settlements_filtered (settlement_filters "slashed" q b) db).0)
      else refused invalid_output

  unfoldable pub run_query_overservice : QueryFlags → Result Db → QueryRun
  run_query_overservice q opened =
      if validate_output_format q.output
      then with_store q opened (λ db b.
        print_results [] q.output overservice_columns (overservice_cells format_time q.output)
          (query_overservice_filtered (overservice_filters q b) db).0)
      else refused invalid_output

  unfoldable pub run_query_reimbursements : QueryFlags → Result Db → QueryRun
  run_query_reimbursements q opened =
      if validate_output_format q.output
      then with_store q opened (λ db b.
        print_results [] q.output reimbursement_columns (reimbursement_cells format_time q.output)
          (query_reimbursements_filtered (reimbursement_filters q b) db).0)
      else refused invalid_output

-- --period is neither word, or one of them.
unfoldable pub run_query_summaries :
    (Time → Bytes) → (Time → Bytes) → String → QueryFlags → Result Db → QueryRun
run_query_summaries format_hour format_day period q opened =
    if validate_output_format q.output
    then if period =? "hourly"
      then with_store q opened (λ db b.
        print_results (summary_header q.output) q.output summary_columns (summary_cells format_hour)
          (query_hourly_summaries_filtered (summary_filters q b) db).0)
      else if period =? "daily"
      then with_store q opened (λ db b.
        print_results (summary_header q.output) q.output summary_columns (summary_cells format_day)
          (query_daily_summaries_filtered (summary_filters q b) db).0)
      else refused invalid_period
    else refused invalid_output

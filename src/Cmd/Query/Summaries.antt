-- ===== src/Cmd/Query/Summaries.antt =====
-- What `query summaries` prints and returns.
use pocket_settlement_monito.Prelude.{
  ℕ, String, Bool-cases, ◌≡◌, ◌≢◌, refl, sym, subst, ◌⊎◌, inl, inr, List, arith,
}
use pocket_settlement_monito.Prelude.Eq.{◌=?◌, string_eq}
use pocket_settlement_monito.Prelude.Exec.{Result, Exec}
use pocket_settlement_monito.Subscriber.Types.{Bytes}
use pocket_settlement_monito.Store.Models.{Time, SummaryRow}
use pocket_settlement_monito.Store.Tables.{Tables}
use pocket_settlement_monito.Store.Db.{Db}
use pocket_settlement_monito.Store.Query.{
  SummaryResult, network_order, service_order, scan_network_summary, scan_service_summary,
  query_hourly_summaries_filtered, query_daily_summaries_filtered,
}
use pocket_settlement_monito.Store.Query.Laws.{Answers}
use pocket_settlement_monito.Store.Query.Conditions.{
  WantsNetworkSummary, WantsServiceSummary, not_text,
}
use pocket_settlement_monito.Store.Query.Filtered.{query_summaries_filtered}
use pocket_settlement_monito.Cmd.Cells.{summary_columns, summary_cells}
use pocket_settlement_monito.Cmd.Query.{
  QueryFlags, Bounds, QueryRun, refused, invalid_output, invalid_period, summary_filters,
  summary_header, run_query_summaries,
}
use pocket_settlement_monito.Cmd.Query.Ends.{
  Scanned, Outcome, Ends, Answers-Outcome, run-Ends, IsFormat-cases,
}
use pocket_settlement_monito.Cmd.Output.Rendered.{IsFormat}

-- The results of a period, of the network's table where no service is asked for, and else of the services'.
abbrev pub SummaryResults :
    (Tables → List (SummaryRow ℕ))
    → (Tables → List (SummaryRow (ℕ × String)))
    → QueryFlags
    → Db
    → Bounds
    → List SummaryResult
    → Type 0
SummaryResults network services q db b results =
    ((q.service ≡ "")
      × Scanned (WantsNetworkSummary (summary_filters q b)) network_order q.limit
          (network db.tables) scan_network_summary results)
    ⊎ ((q.service ≢ "")
        × Scanned (WantsServiceSummary (summary_filters q b)) service_order q.limit
            (services db.tables) scan_service_summary results)

text_cases : (a b : String) → (a ≡ b) ⊎ (a ≢ b)
text_cases a b = elim (Bool-cases (a =? b)) [
  | inl hit ↦ inl ((string_eq.beq_iff a b).0 hit)
  | inr miss ↦ inr (λ e. absurd (ground (arith, (string_eq.beq_iff a b).1 e)))
]

Outcome-imp :
    {Q : Type 0} (db : Db) (A B : List Q → Type 0) (r : Result (List Q))
    → ((results : List Q) → A results → B results)
    → Outcome db A r
    → Outcome db B r
Outcome-imp db A B r f (inl failed) = inl failed
Outcome-imp db A B r f (inr (results, (found, a))) = inr (results, (found, f results a))

summaries-Outcome :
    (network : Tables → List (SummaryRow ℕ)) (services : Tables → List (SummaryRow (ℕ × String)))
    (m : Exec Db (List SummaryResult)) (q : QueryFlags) (db : Db) (b : Bounds)
    → (q.service ≡ ""
        → Answers
            (WantsNetworkSummary (summary_filters q b))
            network_order
            q.limit
            (network db.tables)
            scan_network_summary
            db
            (m db))
    → (q.service ≢ ""
        → Answers
            (WantsServiceSummary (summary_filters q b))
            service_order
            q.limit
            (services db.tables)
            scan_service_summary
            db
            (m db))
    → Outcome db (SummaryResults network services q db b) (m db).0
summaries-Outcome network services m q db b of_network of_service = elim (text_cases q.service "") [
  | inl e ↦
      Outcome-imp db _ _ _ (λ rs a. inl (e, a))
        (Answers-Outcome _ network_order q.limit _ scan_network_summary db m (of_network e))
  | inr n ↦
      Outcome-imp db _ _ _ (λ rs a. inr (n, a))
        (Answers-Outcome _ service_order q.limit _ scan_service_summary db m (of_service n))
]

-- How `summaries` ends for a --period.
pub data SummariesEnd (format_hour format_day : Time → Bytes) (period : String) (q : QueryFlags)
    (opened : Result Db) : QueryRun → Type 0 where
  bad_format :
      (IsFormat q.output → ⊥)
      → SummariesEnd format_hour format_day period q opened (refused invalid_output)
  bad_period :
      IsFormat q.output
      → period ≢ "hourly"
      → period ≢ "daily"
      → SummariesEnd format_hour format_day period q opened (refused invalid_period)
  of_hours :
      (run : QueryRun)
      → period ≡ "hourly"
      → Ends q opened
          (summary_header q.output)
          summary_columns
          (summary_cells format_hour)
          (SummaryResults (λ t. t.hourly_summaries_network) (λ t. t.hourly_summaries_service) q)
          run
      → SummariesEnd format_hour format_day period q opened run
  of_days :
      (run : QueryRun)
      → period ≡ "daily"
      → Ends q opened
          (summary_header q.output)
          summary_columns
          (summary_cells format_day)
          (SummaryResults (λ t. t.daily_summaries_network) (λ t. t.daily_summaries_service) q)
          run
      → SummariesEnd format_hour format_day period q opened run

periods-Ends :
    (format_hour format_day : Time → Bytes) (q : QueryFlags) (opened : Result Db)
    → Ends q opened
        (summary_header q.output)
        summary_columns
        (summary_cells format_hour)
        (SummaryResults (λ t. t.hourly_summaries_network) (λ t. t.hourly_summaries_service) q)
        (run_query_summaries format_hour format_day "hourly" q opened)
      × Ends q opened
          (summary_header q.output)
          summary_columns
          (summary_cells format_day)
          (SummaryResults (λ t. t.daily_summaries_network) (λ t. t.daily_summaries_service) q)
          (run_query_summaries format_hour format_day "daily" q opened)
unfolding run_query_summaries
periods-Ends format_hour format_day q opened = (
  run-Ends q (summary_header q.output) summary_columns (summary_cells format_hour) _ _
      (λ db b.
        summaries-Outcome (λ t. t.hourly_summaries_network) (λ t. t.hourly_summaries_service)
          (query_hourly_summaries_filtered (summary_filters q b)) q db b
          (λ e. ((query_summaries_filtered (summary_filters q b) db).0 e).0)
          (λ n. ((query_summaries_filtered (summary_filters q b) db).1 n).0))
      opened,
  run-Ends q (summary_header q.output) summary_columns (summary_cells format_day) _ _
      (λ db b.
        summaries-Outcome (λ t. t.daily_summaries_network) (λ t. t.daily_summaries_service)
          (query_daily_summaries_filtered (summary_filters q b)) q db b
          (λ e. ((query_summaries_filtered (summary_filters q b) db).0 e).1)
          (λ n. ((query_summaries_filtered (summary_filters q b) db).1 n).1))
      opened,
)

-- `summaries` refuses an output format that is not one of the three, and then a --period that is neither
-- hourly nor daily. Else it ends as the other query commands do, only that before a failed statement's error
-- it has printed an opening bracket if the format is json, and nothing if it is table or csv: the rows that
-- it prints are those of the period's table, the network's without a service, and else the services'.
pub run_query_summaries_lem :
    (format_hour format_day : Time → Bytes) (period : String) (q : QueryFlags) (opened : Result Db)
    → SummariesEnd format_hour format_day period q opened
        (run_query_summaries format_hour format_day period q opened)
unfolding run_query_summaries
run_query_summaries_lem format_hour format_day period q opened = elim (text_cases period "hourly") [
  | inl hour ↦
      subst
        (λ p.
          SummariesEnd format_hour format_day p q opened
            (run_query_summaries format_hour format_day p q opened))
        (sym hour) (of_hours _ refl (periods-Ends format_hour format_day q opened).0)
  | inr not_hour ↦ elim (text_cases period "daily") [
    | inl day ↦
        subst
          (λ p.
            SummariesEnd format_hour format_day p q opened
              (run_query_summaries format_hour format_day p q opened))
          (sym day) (of_days _ refl (periods-Ends format_hour format_day q opened).1)
    | inr not_day ↦ elim (IsFormat-cases q.output) [
      | inl (valid, format) ↦ rw valid (
          rw (not_text period "hourly" not_hour)
            (rw (not_text period "daily" not_day) (bad_period format not_hour not_day)))
      | inr (invalid, bad) ↦ rw invalid (bad_format bad)
    ]
  ]
]

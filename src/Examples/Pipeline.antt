-- ===== src/Examples/Pipeline.antt =====
-- The theorems on the processor at small inputs.
use pocket_settlement_monito.Prelude.{
  ◌≡◌, refl, ◌⊎◌, true, false, List, [], ◌∷◌, map, any, if◌then◌else◌,
}
use pocket_settlement_monito.Prelude.Eq.{◌=?◌, nat_eq, string_eq}
use pocket_settlement_monito.Prelude.Maps.{add_to}
use pocket_settlement_monito.Prelude.Exec.{ok, err, store}
use pocket_settlement_monito.Store.Models.{rfc3339, Settlement}
use pocket_settlement_monito.Store.Db.{Fails}
use pocket_settlement_monito.Store.Summaries.{
  hourly_service_of, daily_service_of, hourly_network_of, daily_network_of,
}
use pocket_settlement_monito.Subscriber.Types.{
  Bytes, EventClaimSettled, EventApplicationOverserviced, claim_settled, overserviced,
  SettlementEvent,
}
use pocket_settlement_monito.Metrics.{LabelConfig, last_processed_height}
use pocket_settlement_monito.Processor.Coins.{upokt, parse_coin_amount, parse_coin_amount-number}
use pocket_settlement_monito.Processor.Filter.{SupplierFilter, new_supplier_filter}
use pocket_settlement_monito.Processor.Correlate.{
  correlate_overservice, expected_row, hits, correlate_overservice_lem,
}
use pocket_settlement_monito.Processor.Aggregate.{aggregate_block, plus}
use pocket_settlement_monito.Processor.Aggregate.Additive.{aggregate_block-append}
use pocket_settlement_monito.Processor.Reporter.{
  report_block, hour_start, hour_end, day_start, day_end, learn,
}
use pocket_settlement_monito.Processor.Reporter.Summaries.{SameEvents}
use pocket_settlement_monito.Processor.Reporter.Report.{
  services, totals_of_network, totals_of_service, report_block_network, report_block_service,
}
use pocket_settlement_monito.Processor.Batch.{filtered, empty_batch, convert_events}
use pocket_settlement_monito.Processor.Batch.Rows.{
  claims_of, claim_in, burns_of, burn_in, refunds_of, refund_in, said, IsMonitored,
  convert_events-IsMonitored,
}
use pocket_settlement_monito.Processor.Pipeline.{World, process_block, dispatch_metrics}
use pocket_settlement_monito.Processor.Pipeline.Outcome.{
  Failed, Processed, process_block_outcome, dispatch_metrics_backfill,
}
use pocket_settlement_monito.Examples.{
  whole_numbers, noon, a_settlement, a_reimbursement, an_overservice, filled_db,
}

abbrev amount : Bytes
amount = b'7' ∷ b'0' ∷ b'0' ∷ upokt

abbrev pub a_claim : EventClaimSettled
a_claim = record {
  supplier_operator_address = "supplier";
  application_address = "app";
  service_id = "eth";
  session_end_block_height = 90;
  claim_proof_status_int = 0;
  claimed_upokt = amount;
  num_relays = 5;
  num_claimed_compute_units = 10;
  num_estimated_compute_units = 10;
  proof_requirement_int = 0;
  reward_distribution = ("owner", amount) ∷ [];
}

abbrev an_overservicing : EventApplicationOverserviced
an_overservicing = record {
  application_addr = "app";
  supplier_operator_addr = "supplier";
  expected_burn = amount;
  effective_burn = upokt;
}

abbrev pub events : List SettlementEvent
events =
    record { height = 100; event_type = "settled"; event = claim_settled a_claim }
    ∷ record { height = 100; event_type = "overserviced"; event = overserviced an_overservicing }
    ∷ []

abbrev a_filter : SupplierFilter
a_filter = new_supplier_filter ("supplier" ∷ [])

abbrev all_labels_on : LabelConfig
all_labels_on = record {
  include_supplier = true;
  include_service = true;
  include_application = true;
}

abbrev world : World
world = record { db = filled_db; known_services = "eth" ∷ []; metrics = []; notified = [] }

process_block_outcome_example :
    Failed whole_numbers all_labels_on a_filter 101 noon events true world
      (process_block whole_numbers all_labels_on a_filter 101 noon events true world)
    ⊎ Processed whole_numbers all_labels_on a_filter 101 noon events true world
        (process_block whole_numbers all_labels_on a_filter 101 noon events true world)
process_block_outcome_example =
    process_block_outcome whole_numbers all_labels_on a_filter 101 noon events true world

dispatch_metrics_backfill_example :
    dispatch_metrics all_labels_on 101 false (a_settlement ∷ []) (an_overservice ∷ []) []
    ≡ last_processed_height 101 ∷ []
dispatch_metrics_backfill_example =
    dispatch_metrics_backfill all_labels_on 101 (a_settlement ∷ []) (an_overservice ∷ []) []

convert_events-IsMonitored_example :
    let b = convert_events whole_numbers 100 noon empty_batch (filtered a_filter events) in
    IsMonitored a_filter 100 noon b
    × (map claim_in b.settlements ≡ said claims_of (filtered a_filter events))
    × (map burn_in b.overservices ≡ said burns_of (filtered a_filter events))
    × (map refund_in b.reimbursements ≡ said refunds_of (filtered a_filter events))
convert_events-IsMonitored_example =
    convert_events-IsMonitored whole_numbers a_filter 100 noon events

correlate_overservice_lem_example :
    correlate_overservice events (a_settlement ∷ [])
    ≡ (map (λ s. (expected_row events s).0) (a_settlement ∷ []), hits events (a_settlement ∷ []))
correlate_overservice_lem_example = correlate_overservice_lem events (a_settlement ∷ [])

parse_coin_amount-number_example : parse_coin_amount amount ≡ 700
parse_coin_amount-number_example =
    parse_coin_amount-number (b'7' ∷ b'0' ∷ b'0' ∷ []) (refl, (refl, (refl, tt))) (λ h. cc)

aggregate_block-append_example :
    aggregate_block (a_settlement ∷ a_settlement ∷ []) (an_overservice ∷ []) (a_reimbursement ∷ [])
    ≡ plus
        (aggregate_block (a_settlement ∷ []) (an_overservice ∷ []) [])
        (aggregate_block (a_settlement ∷ []) [] (a_reimbursement ∷ []))
aggregate_block-append_example =
    aggregate_block-append (a_settlement ∷ []) (a_settlement ∷ []) (an_overservice ∷ []) [] []
      (a_reimbursement ∷ [])

abbrev second_settlement : List Settlement
second_settlement = record a_settlement { block_height = 101 } ∷ []

report_block_network_example :
    let (r, after) =
      report_block noon second_settlement
        (an_overservice ∷ [])
        (a_reimbursement ∷ [])
        (filled_db, "pnf" ∷ []) in
    (after.1
      ≡ services noon second_settlement
          (an_overservice ∷ [])
          (a_reimbursement ∷ [])
          ("pnf" ∷ [])
          filled_db)
    × (((r ≡ err store) × Fails filled_db)
        ⊎ ((r ≡ ok tt)
            × (hourly_network_of noon after.0.tables ≡ (
                if rfc3339 (hour_start noon) =? rfc3339 noon
                then totals_of_network noon second_settlement
                    (an_overservice ∷ [])
                    (a_reimbursement ∷ [])
                    ("pnf" ∷ [])
                    filled_db
                    filled_db.tables
                    (hour_start noon)
                    (hour_end noon)
                    (hourly_network_of (hour_start noon) filled_db.tables)
                else hourly_network_of noon filled_db.tables))
            × (daily_network_of noon after.0.tables ≡ (
                if rfc3339 (day_start noon) =? rfc3339 noon
                then totals_of_network noon second_settlement
                    (an_overservice ∷ [])
                    (a_reimbursement ∷ [])
                    ("pnf" ∷ [])
                    filled_db
                    filled_db.tables
                    (day_start noon)
                    (day_end noon)
                    (daily_network_of (day_start noon) filled_db.tables)
                else daily_network_of noon filled_db.tables))
            × SameEvents filled_db.tables after.0.tables))
report_block_network_example =
    report_block_network noon second_settlement (an_overservice ∷ []) (a_reimbursement ∷ [])
      ("pnf" ∷ []) filled_db noon noon

learnt : any (λ r. r =? "eth") (learn second_settlement ("pnf" ∷ [])) ≡ true
unfolding learn add_to
learnt = refl

report_block_service_example :
    let (r, after) =
      report_block noon second_settlement
        (an_overservice ∷ [])
        (a_reimbursement ∷ [])
        (filled_db, "pnf" ∷ []) in
    ((r ≡ err store) × Fails filled_db)
    ⊎ ((r ≡ ok tt)
        × (hourly_service_of (hour_start noon) "eth" after.0.tables
            ≡ totals_of_service noon second_settlement
                (an_overservice ∷ [])
                (a_reimbursement ∷ [])
                ("pnf" ∷ [])
                filled_db
                filled_db.tables
                "eth"
                (hour_start noon)
                (hour_end noon)
                (hourly_service_of (hour_start noon) "eth" filled_db.tables))
        × (daily_service_of (day_start noon) "eth" after.0.tables
            ≡ totals_of_service noon second_settlement
                (an_overservice ∷ [])
                (a_reimbursement ∷ [])
                ("pnf" ∷ [])
                filled_db
                filled_db.tables
                "eth"
                (day_start noon)
                (day_end noon)
                (daily_service_of (day_start noon) "eth" filled_db.tables)))
report_block_service_example =
    report_block_service noon second_settlement (an_overservice ∷ []) (a_reimbursement ∷ [])
      ("pnf" ∷ []) filled_db "eth" (refl, tt) learnt

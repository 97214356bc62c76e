-- ===== src/Examples/Recalculate.antt =====
-- The theorems on the recalculation of summaries at small inputs.
use pocket_settlement_monito.Prelude.{
  ◌+◌, ◌≡◌, refl, sym, ◌∙◌, ◌⊎◌, inr, true, [], ◌∷◌, any, arith, ◌*◌, leb, ltb, ◌&&◌,
}
use pocket_settlement_monito.Prelude.Eq.{◌=?◌, nat_eq, string_eq}
use pocket_settlement_monito.Prelude.Exec.{ok, err, store}
use pocket_settlement_monito.Store.Models.{Time, rfc3339, Totals, zero_totals}
use pocket_settlement_monito.Store.Tables.{empty_tables}
use pocket_settlement_monito.Store.Tables.Laws.{get_summary-nil}
use pocket_settlement_monito.Store.Db.{Db, Fails}
use pocket_settlement_monito.Store.Summaries.{
  hourly_service_of, hourly_network_of, daily_service_of, daily_network_of,
}
use pocket_settlement_monito.Processor.Reporter.{
  day, hour_start, hour_end, day_start, day_end, KnownServices, learn, report_block,
}
use pocket_settlement_monito.Prelude.Maps.{add_to}
use pocket_settlement_monito.Store.Period.{order_rows, insert_row}
use pocket_settlement_monito.Processor.Aggregate.Additive.{no_events_totals}
use pocket_settlement_monito.Processor.Reporter.Summaries.{SameEvents}
use pocket_settlement_monito.Processor.Recalculate.{recalculate_summaries_for_range}
use pocket_settlement_monito.Processor.Recalculate.Rebuilt.{network_of_events, service_of_events}
use pocket_settlement_monito.Processor.Recalculate.Range.{services}
use pocket_settlement_monito.Processor.Recalculate.Summaries.{
  from_events, recalculate_network_rows, recalculate_service_rows,
}
use pocket_settlement_monito.Processor.Recalculate.Outside.{recalculate_outside}
use pocket_settlement_monito.Processor.Recalculate.Agree.{IsBehind, report_block_rebuilds}
use pocket_settlement_monito.Examples.{a_settlement, a_reimbursement, an_overservice, noon}

-- One event of each kind, as an insertion leaves it, and no summary yet.
abbrev events_db : Db
events_db = record {
  tables = record empty_tables {
    settlements = record { rows = record a_settlement { id = 1 } ∷ []; last_id = 1 };
    overservice_events = record { rows = record an_overservice { id = 1 } ∷ []; last_id = 1 };
    reimbursement_events = record { rows = record a_reimbursement { id = 1 } ∷ []; last_id = 1 };
  };
  failures = [];
}

abbrev pnf : KnownServices
pnf = "pnf" ∷ []

recalculate_network_rows_example :
    let t = events_db.tables in
    let (r, after) = recalculate_summaries_for_range noon noon (events_db, pnf) in
    ((r ≡ err store) × Fails events_db)
    ⊎ ((r ≡ ok tt)
        × (hourly_network_of (hour_start noon) after.0.tables
            ≡ from_events
                (hour_start noon)
                (hour_end noon)
                t
                (network_of_events (hour_start noon) (hour_end noon) t)
                (hourly_network_of (hour_start noon) t))
        × (daily_network_of (day_start noon) after.0.tables
            ≡ from_events
                (day_start noon)
                (day_end noon)
                t
                (network_of_events (day_start noon) (day_end noon) t)
                (daily_network_of (day_start noon) t))
        × SameEvents t after.0.tables)
recalculate_network_rows_example =
    recalculate_network_rows noon noon pnf events_db noon (omega arith) (omega arith)

known_pnf : any (λ r. r =? "pnf") (services noon noon pnf events_db.tables) ≡ true
unfolding learn add_to order_rows insert_row
known_pnf = refl

recalculate_service_rows_example :
    let t = events_db.tables in
    let (r, after) = recalculate_summaries_for_range noon noon (events_db, pnf) in
    ((r ≡ err store) × Fails events_db)
    ⊎ ((r ≡ ok tt)
        × (hourly_service_of (hour_start noon) "pnf" after.0.tables
            ≡ from_events
                (hour_start noon)
                (hour_end noon)
                t
                (service_of_events (hour_start noon) (hour_end noon) "pnf" t)
                (hourly_service_of (hour_start noon) "pnf" t))
        × (daily_service_of (day_start noon) "pnf" after.0.tables
            ≡ from_events
                (day_start noon)
                (day_end noon)
                t
                (service_of_events (day_start noon) (day_end noon) "pnf" t)
                (daily_service_of (day_start noon) "pnf" t)))
recalculate_service_rows_example =
    recalculate_service_rows noon noon pnf events_db noon "pnf" (omega arith) (omega arith)
      (refl, tt) known_pnf

recalculate_outside_example :
    let x = noon + 3 * day in
    let t = events_db.tables in
    let (r, after) = recalculate_summaries_for_range noon noon (events_db, pnf) in
    ((r ≡ err store) × Fails events_db)
    ⊎ ((r ≡ ok tt)
        × (hourly_network_of (hour_start x) after.0.tables ≡ hourly_network_of (hour_start x) t)
        × (hourly_service_of (hour_start x) "pnf" after.0.tables
            ≡ hourly_service_of (hour_start x) "pnf" t)
        × (daily_network_of (day_start x) after.0.tables ≡ daily_network_of (day_start x) t)
        × (daily_service_of (day_start x) "pnf" after.0.tables
            ≡ daily_service_of (day_start x) "pnf" t))
recalculate_outside_example =
    recalculate_outside noon noon pnf events_db (noon + 3 * day) "pnf" (inr (omega arith))

-- The events are those of one block, and no row is there before it.
behind :
    (from to : Time) (row : Totals)
    → row ≡ zero_totals
    → leb (rfc3339 from) (rfc3339 noon) && ltb (rfc3339 noon) (rfc3339 to) ≡ true
    → IsBehind
        (a_settlement ∷ [])
        (an_overservice ∷ [])
        (a_reimbursement ∷ [])
        from
        to
        row
        events_db.tables
behind from to row e h = record {
  earlier_settlements = [];
  earlier_overservices = [];
  earlier_reimbursements = [];
  stored_settlements = events_db.tables.settlements.rows;
  stored_overservices = events_db.tables.overservice_events.rows;
  stored_reimbursements = events_db.tables.reimbursement_events.rows;
  suppliers = 0;
  settlements = rw h;
  overservices = rw h;
  reimbursements = rw h;
  same_settlements = refl;
  same_overservices = refl;
  same_reimbursements = refl;
  totals = e ∙ sym no_events_totals;
}

report_block_rebuilds_example :
    let (r, after) =
      report_block noon
        (a_settlement ∷ [])
        (an_overservice ∷ [])
        (a_reimbursement ∷ [])
        (events_db, pnf) in
    ((r ≡ err store) × Fails events_db)
    ⊎ ((r ≡ ok tt)
        × (hourly_network_of (hour_start noon) after.0.tables
            ≡ network_of_events (hour_start noon) (hour_end noon) events_db.tables)
        × (daily_network_of (day_start noon) after.0.tables
            ≡ network_of_events (day_start noon) (day_end noon) events_db.tables))
report_block_rebuilds_example =
    report_block_rebuilds noon (a_settlement ∷ []) (an_overservice ∷ []) (a_reimbursement ∷ []) pnf
      events_db
      (behind (hour_start noon) (hour_end noon) _ (get_summary-nil (rfc3339 (hour_start noon)))
        refl)
      (behind (day_start noon) (day_end noon) _ (get_summary-nil (rfc3339 (day_start noon))) refl)

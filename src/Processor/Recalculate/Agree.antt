-- ===== src/Processor/Recalculate/Agree.antt =====
-- Adding a block to the summaries and rebuilding them from the events come to the same totals.
use pocket_settlement_monito.Prelude.{◌≡◌, ◌∙◌, ◌⊎◌, inl, inr, List, ◌++◌, sym, map}
use pocket_settlement_monito.Prelude.Eq.{nat_eq, =?_refl}
use pocket_settlement_monito.Prelude.Words.{Int64}
use pocket_settlement_monito.Prelude.Exec.{ok, err, store}
use pocket_settlement_monito.Store.Models.{
  Time, rfc3339, Settlement, OverserviceEvent, ReimbursementEvent, Totals,
}
use pocket_settlement_monito.Store.Tables.{Tables}
use pocket_settlement_monito.Store.Db.{Db, Fails}
use pocket_settlement_monito.Store.Period.{settlements_in, overservices_in, reimbursements_in}
use pocket_settlement_monito.Store.Summaries.{hourly_network_of, daily_network_of}
use pocket_settlement_monito.Processor.Aggregate.{aggregate_block, totals_of}
use pocket_settlement_monito.Processor.Aggregate.Given.{
  given_settlement, given_overservice, given_reimbursement, aggregate_block-given,
}
use pocket_settlement_monito.Processor.Aggregate.Additive.{
  aggregate_block-append, accumulate-totals_of,
}
use pocket_settlement_monito.Processor.Reporter.{
  KnownServices, hour_start, hour_end, day_start, day_end, report_block,
}
use pocket_settlement_monito.Processor.Reporter.Effect.{network_totals}
use pocket_settlement_monito.Processor.Reporter.Report.{report_block_network}
use pocket_settlement_monito.Processor.Recalculate.Rebuilt.{network_of_events}

-- The tables hold a block's events, under ids of their own, as the last ones of the period, and the row
-- holds the totals of those before them.
pub record IsBehind (ss : List Settlement) (os : List OverserviceEvent)
    (rs : List ReimbursementEvent) (from to : Time) (row : Totals) (t : Tables) : Type 0 where
  pub earlier_settlements : List Settlement
  pub earlier_overservices : List OverserviceEvent
  pub earlier_reimbursements : List ReimbursementEvent
  pub stored_settlements : List Settlement
  pub stored_overservices : List OverserviceEvent
  pub stored_reimbursements : List ReimbursementEvent
  pub suppliers : Int64
  pub settlements : settlements_in from to t ≡ earlier_settlements ++ stored_settlements
  pub overservices : overservices_in from to t ≡ earlier_overservices ++ stored_overservices
  pub reimbursements : reimbursements_in from to t ≡ earlier_reimbursements ++ stored_reimbursements
  pub same_settlements : map given_settlement stored_settlements ≡ map given_settlement ss
  pub same_overservices : map given_overservice stored_overservices ≡ map given_overservice os
  pub same_reimbursements :
      map given_reimbursement stored_reimbursements ≡ map given_reimbursement rs
  pub totals :
      row
      ≡ totals_of
          (aggregate_block earlier_settlements earlier_overservices earlier_reimbursements)
          suppliers

-- The block's rows contribute what its structs do.
IsBehind-aggregate_block :
    {ss : List Settlement} {os : List OverserviceEvent} {rs : List ReimbursementEvent}
    {from to : Time} {row : Totals} {t : Tables} (h : IsBehind ss os rs from to row t)
    → aggregate_block h.stored_settlements h.stored_overservices h.stored_reimbursements
      ≡ aggregate_block ss os rs
IsBehind-aggregate_block {ss} {os} {rs} h =
    sym (aggregate_block-given h.stored_settlements h.stored_overservices h.stored_reimbursements)
    ∙ rw (h.same_settlements, h.same_overservices, h.same_reimbursements)
        (aggregate_block-given ss os rs)

module _ (ts : Time) (ss : List Settlement) (os : List OverserviceEvent)
    (rs : List ReimbursementEvent) where
  catch_up :
      (from to : Time) (row : Totals) (t : Tables)
      → IsBehind ss os rs from to row t
      → network_totals ts ss os rs row from to t ≡ network_of_events from to t
  catch_up from to row t h =
      rw
        (
          h.totals,
          h.settlements,
          h.overservices,
          h.reimbursements,
          aggregate_block-append h.earlier_settlements h.stored_settlements h.earlier_overservices
              h.stored_overservices h.earlier_reimbursements h.stored_reimbursements,
          IsBehind-aggregate_block h,
        )
        (accumulate-totals_of _ _ _ _)

  -- Where the database holds a block's events, under ids of their own, as the last ones of the block's hour
  -- and of its day, and the network's rows hold the totals of the events before them, ReportBlock returns a failed statement's
  -- error, or no error and leaves in these rows the totals of all events of the hour and of the day, which
  -- are those that a recalculation writes.
  pub report_block_rebuilds :
      (known : KnownServices) (db : Db)
      → IsBehind ss os rs
          (hour_start ts)
          (hour_end ts)
          (hourly_network_of (hour_start ts) db.tables)
          db.tables
      → IsBehind ss os rs
          (day_start ts)
          (day_end ts)
          (daily_network_of (day_start ts) db.tables)
          db.tables
      → let (r, after) = report_block ts ss os rs (db, known) in
        ((r ≡ err store) × Fails db)
        ⊎ ((r ≡ ok tt)
            × (hourly_network_of (hour_start ts) after.0.tables
                ≡ network_of_events (hour_start ts) (hour_end ts) db.tables)
            × (daily_network_of (day_start ts) after.0.tables
                ≡ network_of_events (day_start ts) (day_end ts) db.tables))
  report_block_rebuilds known db hh hd =
      elim (report_block_network ts ss os rs known db (hour_start ts) (day_start ts)).1 [
        | inl failed ↦ inl failed
        | inr (e, hourly, daily, _) ↦ inr (
          e,
          rw (=?_refl (rfc3339 (hour_start ts))) at hourly ∙ catch_up _ _ _ db.tables hh,
          rw (=?_refl (rfc3339 (day_start ts))) at daily ∙ catch_up _ _ _ db.tables hd,
        )
      ]

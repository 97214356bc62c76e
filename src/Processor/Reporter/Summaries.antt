-- ===== src/Processor/Reporter/Summaries.antt =====
-- The summary rows after ReportBlock.
use pocket_settlement_monito.Prelude.{String, ◌≡◌, refl, ap, ◌∙◌, true, List, [], any}
use pocket_settlement_monito.Prelude.Eq.{◌=?◌, nat_eq, string_eq, pair_eq, pair_differs}
use pocket_settlement_monito.Store.Models.{
  Time, rfc3339, Settlement, OverserviceEvent, ReimbursementEvent, Totals,
}
use pocket_settlement_monito.Store.Tables.{Tables, upsert, get_summary}
use pocket_settlement_monito.Store.Tables.Laws.{
  get_summary-upsert_same, get_summary-upsert_other, KeysDistinct,
}
use pocket_settlement_monito.Store.Db.{in_turn, in_turn_frame}
use pocket_settlement_monito.Store.Period.{suppliers_in, suppliers_in_frame}
use pocket_settlement_monito.Store.Summaries.{
  hourly_service_of, hourly_network_of, daily_service_of, daily_network_of,
}
use pocket_settlement_monito.Processor.Aggregate.{aggregate_block, accumulate}
use pocket_settlement_monito.Processor.Reporter.{
  KnownServices, hour_start, hour_end, day_start, day_end, settlements_of, reimbursements_of,
}
use pocket_settlement_monito.Processor.Reporter.Effect.{
  service_totals, network_totals, add_hourly_service, add_hourly_network, add_daily_service,
  add_daily_network, add_summaries, walk_member,
}

-- The tables that the reporter only reads.
pub record SameEvents (t u : Tables) : Type 0 where
  pub settlements : u.settlements ≡ t.settlements
  pub reward_distributions : u.reward_distributions ≡ t.reward_distributions
  pub overservice_events : u.overservice_events ≡ t.overservice_events
  pub reimbursement_events : u.reimbursement_events ≡ t.reimbursement_events
  pub processed_blocks : u.processed_blocks ≡ t.processed_blocks

module _ (ts : Time) (ss : List Settlement) (os : List OverserviceEvent)
    (rs : List ReimbursementEvent) (known : KnownServices) (t : Tables) where
  hours : Tables
  hours = in_turn (add_hourly_service ts ss os rs) known t

  after_hours : Tables
  unfolding hours
  after_hours = add_hourly_network ts ss os rs hours

  days : Tables
  unfolding after_hours
  days = in_turn (add_daily_service ts ss os rs) known after_hours

  abbrev result : Tables
  result = add_summaries ts ss os rs known t

  -- A column that no step writes.
  unwritten :
      {F : Type 0} (field : Tables → F)
      → ((s : String) (u : Tables) → field (add_hourly_service ts ss os rs s u) ≡ field u)
      → ((u : Tables) → field (add_hourly_network ts ss os rs u) ≡ field u)
      → ((s : String) (u : Tables) → field (add_daily_service ts ss os rs s u) ≡ field u)
      → ((u : Tables) → field (add_daily_network ts ss os rs u) ≡ field u)
      → field result ≡ field t
  unfolding add_summaries
  unwritten field h₁ h₂ h₃ h₄ =
      h₄ _
      ∙ in_turn_frame (add_daily_service ts ss os rs) field h₃ known _
      ∙ h₂ _
      ∙ in_turn_frame (add_hourly_service ts ss os rs) field h₁ known t

  pub result-SameEvents : SameEvents t result
  result-SameEvents = record {
    settlements =
        unwritten (λ u. u.settlements) (λ _ _. refl) (λ _. refl) (λ _ _. refl) (λ _. refl);
    reward_distributions =
        unwritten (λ u. u.reward_distributions) (λ _ _. refl) (λ _. refl) (λ _ _. refl) (λ _. refl);
    overservice_events =
        unwritten (λ u. u.overservice_events) (λ _ _. refl) (λ _. refl) (λ _ _. refl) (λ _. refl);
    reimbursement_events =
        unwritten (λ u. u.reimbursement_events) (λ _ _. refl) (λ _. refl) (λ _ _. refl) (λ _. refl);
    processed_blocks =
        unwritten (λ u. u.processed_blocks) (λ _ _. refl) (λ _. refl) (λ _ _. refl) (λ _. refl);
  }

  hours-settlements : hours.settlements ≡ t.settlements
  unfolding hours
  hours-settlements =
      in_turn_frame (add_hourly_service ts ss os rs) (λ u. u.settlements) (λ _ _. refl) known t

  hours-network : hours.hourly_summaries_network ≡ t.hourly_summaries_network
  unfolding hours
  hours-network =
      in_turn_frame (add_hourly_service ts ss os rs) (λ u. u.hourly_summaries_network) (λ _ _. refl)
        known t

  hours-suppliers :
      (from to : Time) (service : String)
      → suppliers_in from to service hours ≡ suppliers_in from to service t
  hours-suppliers from to service = suppliers_in_frame from to service hours t hours-settlements

  pub result-hourly_table :
      result.hourly_summaries_network
      ≡ upsert
          (rfc3339 (hour_start ts))
          (network_totals ts ss os rs
            (hourly_network_of (hour_start ts) t)
            (hour_start ts)
            (hour_end ts)
            t)
          t.hourly_summaries_network
  unfolding add_summaries hours after_hours
  result-hourly_table =
      in_turn_frame (add_daily_service ts ss os rs) (λ u. u.hourly_summaries_network) (λ _ _. refl)
        known after_hours
      ∙ (λ i.
          upsert (rfc3339 (hour_start ts))
            (accumulate (get_summary (rfc3339 (hour_start ts)) (hours-network i))
              (aggregate_block ss os rs) (hours-suppliers (hour_start ts) (hour_end ts) "" i))
            (hours-network i))

  days-settlements : days.settlements ≡ t.settlements
  unfolding days after_hours
  days-settlements =
      in_turn_frame (add_daily_service ts ss os rs) (λ u. u.settlements) (λ _ _. refl) known
        after_hours
      ∙ hours-settlements

  days-network : days.daily_summaries_network ≡ t.daily_summaries_network
  unfolding days after_hours hours
  days-network =
      in_turn_frame (add_daily_service ts ss os rs) (λ u. u.daily_summaries_network) (λ _ _. refl)
        known after_hours
      ∙ in_turn_frame (add_hourly_service ts ss os rs) (λ u. u.daily_summaries_network)
          (λ _ _. refl) known t

  pub result-daily_table :
      result.daily_summaries_network
      ≡ upsert
          (rfc3339 (day_start ts))
          (network_totals ts ss os rs
            (daily_network_of (day_start ts) t)
            (day_start ts)
            (day_end ts)
            t)
          t.daily_summaries_network
  unfolding add_summaries hours after_hours days
  result-daily_table =
      let suppliers = suppliers_in_frame (day_start ts) (day_end ts) "" days t days-settlements in
      λ i.
        upsert (rfc3339 (day_start ts))
          (accumulate (get_summary (rfc3339 (day_start ts)) (days-network i))
            (aggregate_block ss os rs) (suppliers i))
          (days-network i)

  -- A service's row of the hour, after the walk.
  pub result-hourly_service :
      (s : String)
      → KeysDistinct (λ r. r) known
      → any (λ r. r =? s) known ≡ true
      → hourly_service_of (hour_start ts) s result
        ≡ service_totals ts ss os rs
            (hourly_service_of (hour_start ts) s t)
            s
            (hour_start ts)
            (hour_end ts)
            t
  unfolding add_summaries hours after_hours suppliers_in
  result-hourly_service s d h =
      let hour = rfc3339 (hour_start ts) in
      let look : String → Tables → Totals = hourly_service_of (hour_start ts) in
      ap (get_summary (hour, s)) (
        in_turn_frame (add_daily_service ts ss os rs) (λ u. u.hourly_summaries_service)
          (λ _ _. refl) known after_hours)
      ∙ walk_member (add_hourly_service ts ss os rs) look
          (λ s u. service_totals ts ss os rs (look s u) s (hour_start ts) (hour_end ts) u)
          (λ s u. get_summary-upsert_same (hour, s) _ u.hourly_summaries_service)
          (λ s r u n.
            get_summary-upsert_other (hour, r) (hour, s) _ u.hourly_summaries_service
              (pair_differs hour r s n))
          (λ s r u n i.
            service_totals ts ss os rs
              (get_summary-upsert_other (hour, r) (hour, s)
                (service_totals ts ss os rs (look r u) r (hour_start ts) (hour_end ts) u)
                u.hourly_summaries_service (pair_differs hour r s n) i)
              s (hour_start ts) (hour_end ts) u)
          s known t d h

  after_hours-daily : after_hours.daily_summaries_service ≡ t.daily_summaries_service
  unfolding hours after_hours
  after_hours-daily =
      in_turn_frame (add_hourly_service ts ss os rs) (λ u. u.daily_summaries_service) (λ _ _. refl)
        known t

  after_hours-suppliers :
      (s : String)
      → suppliers_in (day_start ts) (day_end ts) s after_hours
        ≡ suppliers_in (day_start ts) (day_end ts) s t
  unfolding after_hours
  after_hours-suppliers s =
      suppliers_in_frame (day_start ts) (day_end ts) s after_hours t hours-settlements

  -- And of the day.
  pub result-daily_service :
      (s : String)
      → KeysDistinct (λ r. r) known
      → any (λ r. r =? s) known ≡ true
      → daily_service_of (day_start ts) s result
        ≡ service_totals ts ss os rs
            (daily_service_of (day_start ts) s t)
            s
            (day_start ts)
            (day_end ts)
            t
  unfolding add_summaries hours after_hours days suppliers_in
  result-daily_service s d h =
      let day = rfc3339 (day_start ts) in
      let look : String → Tables → Totals = daily_service_of (day_start ts) in
      walk_member (add_daily_service ts ss os rs) look
        (λ s u. service_totals ts ss os rs (look s u) s (day_start ts) (day_end ts) u)
        (λ s u. get_summary-upsert_same (day, s) _ u.daily_summaries_service)
        (λ s r u n.
          get_summary-upsert_other (day, r) (day, s) _ u.daily_summaries_service
            (pair_differs day r s n))
        (λ s r u n i.
          service_totals ts ss os rs
            (get_summary-upsert_other (day, r) (day, s)
              (service_totals ts ss os rs (look r u) r (day_start ts) (day_end ts) u)
              u.daily_summaries_service (pair_differs day r s n) i)
            s (day_start ts) (day_end ts) u)
        s known after_hours d h
      ∙ (λ i.
          accumulate (get_summary (day, s) (after_hours-daily i))
            (aggregate_block (settlements_of s ss) [] (reimbursements_of s rs))
            (after_hours-suppliers s i))

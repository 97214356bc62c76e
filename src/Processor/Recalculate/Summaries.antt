-- ===== src/Processor/Recalculate/Summaries.antt =====
-- The rows that RecalculateSummariesForRange leaves, for every hour and day of the range and outside it.
use pocket_settlement_monito.Prelude.{
  ◌≤◌, ◌<◌, String, ◌≡◌, refl, ap, ◌∙◌, ◌⊎◌, inl, inr, true, any, if◌then◌else◌, arith,
}
use pocket_settlement_monito.Prelude.Eq.{◌=?◌, string_eq}
use pocket_settlement_monito.Prelude.Exec.{ok, err, store}
use pocket_settlement_monito.Store.Models.{Time, Totals}
use pocket_settlement_monito.Store.Tables.{Tables}
use pocket_settlement_monito.Store.Tables.Laws.{KeysDistinct}
use pocket_settlement_monito.Store.Db.{Db, Fails}
use pocket_settlement_monito.Store.Summaries.{
  hourly_service_of, hourly_network_of, daily_service_of, daily_network_of,
}
use pocket_settlement_monito.Processor.Reporter.{
  KnownServices, hour_start, hour_end, day_start, day_end,
}
use pocket_settlement_monito.Processor.Reporter.Report.{learn-KeysDistinct}
use pocket_settlement_monito.Processor.Reporter.Summaries.{SameEvents}
use pocket_settlement_monito.Processor.Recalculate.{hours, days, recalculate_summaries_for_range}
use pocket_settlement_monito.Processor.Recalculate.Laws.{
  Rows, Leaves, hour_rows, day_rows, hours-IsStore, days-IsStore, hours-IsCalendar, days-IsCalendar,
}
use pocket_settlement_monito.Processor.Recalculate.Starts.{has_events, range_settlements}
use pocket_settlement_monito.Processor.Recalculate.Rebuilt.{
  network_of_events, service_of_events, rebuild_periods, rebuild_periods_frame, network_row,
  service_row,
}
use pocket_settlement_monito.Processor.Recalculate.Range.{services, all_rebuilt, range_outcome}

-- The row of a period: its events' totals if it has events, and else what it was.
abbrev pub from_events : Time → Time → Tables → Totals → Totals → Totals
from_events start end t fresh old = if has_events start end t then fresh else old

pub leaves :
    {w : Rows} {F : Type 0} {field : Tables → F}
    → ((b : Time) (r : String) (v : Totals) (t : Tables) → field (w.set_service b r v t) ≡ field t)
    → ((b : Time) (v : Totals) (t : Tables) → field (w.set_network b v t) ≡ field t)
    → Leaves w field
leaves s n = record { service = s; network = n }

module _ (from to : Time) (known : KnownServices) (t : Tables) where
  abbrev pub hours_done : Tables
  hours_done = rebuild_periods hours hour_rows from to (services from to known t) t t

  -- The days' writes leave the rest alone, and so do the hours'.
  pub days_frame :
      {F : Type 0} (field : Tables → F)
      → Leaves day_rows field
      → field (all_rebuilt from to known t) ≡ field hours_done
  unfolding all_rebuilt
  days_frame field h =
      rebuild_periods_frame days day_rows from to (services from to known t) t field h hours_done

  pub hours_frame :
      {F : Type 0} (field : Tables → F) → Leaves hour_rows field → field hours_done ≡ field t
  hours_frame field h =
      rebuild_periods_frame hours hour_rows from to (services from to known t) t field h t

  unwritten :
      {F : Type 0} (field : Tables → F)
      → Leaves hour_rows field
      → Leaves day_rows field
      → field (all_rebuilt from to known t) ≡ field t
  unwritten field h d = days_frame field d ∙ hours_frame field h

  hours_done-settlements : hours_done.settlements ≡ t.settlements
  hours_done-settlements =
      hours_frame (λ u. u.settlements) (leaves (λ _ _ _ _. refl) (λ _ _ _. refl))

  pub all_rebuilt-SameEvents : SameEvents t (all_rebuilt from to known t)
  all_rebuilt-SameEvents = record {
    settlements =
        unwritten (λ u. u.settlements) (leaves (λ _ _ _ _. refl) (λ _ _ _. refl))
          (leaves (λ _ _ _ _. refl) (λ _ _ _. refl));
    reward_distributions =
        unwritten (λ u. u.reward_distributions) (leaves (λ _ _ _ _. refl) (λ _ _ _. refl))
          (leaves (λ _ _ _ _. refl) (λ _ _ _. refl));
    overservice_events =
        unwritten (λ u. u.overservice_events) (leaves (λ _ _ _ _. refl) (λ _ _ _. refl))
          (leaves (λ _ _ _ _. refl) (λ _ _ _. refl));
    reimbursement_events =
        unwritten (λ u. u.reimbursement_events) (leaves (λ _ _ _ _. refl) (λ _ _ _. refl))
          (leaves (λ _ _ _ _. refl) (λ _ _ _. refl));
    processed_blocks =
        unwritten (λ u. u.processed_blocks) (leaves (λ _ _ _ _. refl) (λ _ _ _. refl))
          (leaves (λ _ _ _ _. refl) (λ _ _ _. refl));
  }

  module _ (x : Time) (low : day_start from ≤ x) (high : x < day_end to) where
    hourly_network :
        hourly_network_of (hour_start x) (all_rebuilt from to known t)
        ≡ from_events
            (hour_start x)
            (hour_end x)
            t
            (network_of_events (hour_start x) (hour_end x) t)
            (hourly_network_of (hour_start x) t)
    hourly_network =
        days_frame (hourly_network_of (hour_start x)) (leaves (λ _ _ _ _. refl) (λ _ _ _. refl))
        ∙ network_row hours hour_rows hours-IsStore hours-IsCalendar from to _ t (hour_start x)
            (hours-IsCalendar.start_idem x) (omega arith) (omega arith) t refl

    daily_network :
        daily_network_of (day_start x) (all_rebuilt from to known t)
        ≡ from_events
            (day_start x)
            (day_end x)
            t
            (network_of_events (day_start x) (day_end x) t)
            (daily_network_of (day_start x) t)
    unfolding all_rebuilt
    daily_network =
        network_row days day_rows days-IsStore days-IsCalendar from to _ t (day_start x)
          (days-IsCalendar.start_idem x) (omega arith) (omega arith) hours_done
          hours_done-settlements
        ∙ ap
            (from_events (day_start x) (day_end x) t
              (network_of_events (day_start x) (day_end x) t))
            (hours_frame (daily_network_of (day_start x))
              (leaves (λ _ _ _ _. refl) (λ _ _ _. refl)))

    module _ (s : String) (d : KeysDistinct (λ r. r) known)
        (m : any (λ r. r =? s) (services from to known t) ≡ true) where
      hourly_service :
          hourly_service_of (hour_start x) s (all_rebuilt from to known t)
          ≡ from_events
              (hour_start x)
              (hour_end x)
              t
              (service_of_events (hour_start x) (hour_end x) s t)
              (hourly_service_of (hour_start x) s t)
      hourly_service =
          days_frame (hourly_service_of (hour_start x) s) (leaves (λ _ _ _ _. refl) (λ _ _ _. refl))
          ∙ service_row hours hour_rows hours-IsStore hours-IsCalendar from to _ t (hour_start x)
              (hours-IsCalendar.start_idem x) (omega arith) (omega arith) t refl s
              (learn-KeysDistinct (range_settlements from to t) known d) m

      daily_service :
          daily_service_of (day_start x) s (all_rebuilt from to known t)
          ≡ from_events
              (day_start x)
              (day_end x)
              t
              (service_of_events (day_start x) (day_end x) s t)
              (daily_service_of (day_start x) s t)
      unfolding all_rebuilt
      daily_service =
          service_row days day_rows days-IsStore days-IsCalendar from to _ t (day_start x)
            (days-IsCalendar.start_idem x) (omega arith) (omega arith) hours_done
            hours_done-settlements s (learn-KeysDistinct (range_settlements from to t) known d) m
          ∙ ap
              (from_events (day_start x) (day_end x) t
                (service_of_events (day_start x) (day_end x) s t))
              (hours_frame (daily_service_of (day_start x) s)
                (leaves (λ _ _ _ _. refl) (λ _ _ _. refl)))

module _ (from to : Time) (known : KnownServices) (db : Db) (x : Time) where
  -- RecalculateSummariesForRange has two outcomes: an error, which a failed statement gives, or no error,
  -- and then for every instant `x` from the start of the day of `from` to the end of the day of `to` the
  -- network's rows of the hour and of the day of `x` hold the totals of all events in the database of that
  -- hour and that day, whatever they held before, or are as before where there is no such event; the
  -- events and the processed blocks are unchanged.
  pub recalculate_network_rows :
      day_start from ≤ x
      → x < day_end to
      → let t = db.tables in
        let (r, after) = recalculate_summaries_for_range from to (db, known) in
        ((r ≡ err store) × Fails db)
        ⊎ ((r ≡ ok tt)
            × (hourly_network_of (hour_start x) after.0.tables
                ≡ from_events
                    (hour_start x)
                    (hour_end x)
                    t
                    (network_of_events (hour_start x) (hour_end x) t)
                    (hourly_network_of (hour_start x) t))
            × (daily_network_of (day_start x) after.0.tables
                ≡ from_events
                    (day_start x)
                    (day_end x)
                    t
                    (network_of_events (day_start x) (day_end x) t)
                    (daily_network_of (day_start x) t))
            × SameEvents t after.0.tables)
  recalculate_network_rows low high = elim (range_outcome from to known db) [
    | inl failed ↦ inl failed
    | inr (e, t) ↦ inr (
      e,
      ap (hourly_network_of (hour_start x)) t ∙ hourly_network from to known db.tables x low high,
      ap (daily_network_of (day_start x)) t ∙ daily_network from to known db.tables x low high,
      rw t (all_rebuilt-SameEvents from to known db.tables),
    )
  ]

  -- The same for a service that the reporter knows or that a settlement of the range has, where the known
  -- services are a set: its rows hold the totals of its settlements and reimbursements.
  pub recalculate_service_rows :
      (s : String)
      → day_start from ≤ x
      → x < day_end to
      → KeysDistinct (λ r. r) known
      → any (λ r. r =? s) (services from to known db.tables) ≡ true
      → let t = db.tables in
        let (r, after) = recalculate_summaries_for_range from to (db, known) in
        ((r ≡ err store) × Fails db)
        ⊎ ((r ≡ ok tt)
            × (hourly_service_of (hour_start x) s after.0.tables
                ≡ from_events
                    (hour_start x)
                    (hour_end x)
                    t
                    (service_of_events (hour_start x) (hour_end x) s t)
                    (hourly_service_of (hour_start x) s t))
            × (daily_service_of (day_start x) s after.0.tables
                ≡ from_events
                    (day_start x)
                    (day_end x)
                    t
                    (service_of_events (day_start x) (day_end x) s t)
                    (daily_service_of (day_start x) s t)))
  recalculate_service_rows s low high d m = elim (range_outcome from to known db) [
    | inl failed ↦ inl failed
    | inr (e, t) ↦ inr (
      e,
      ap (hourly_service_of (hour_start x) s) t
          ∙ hourly_service from to known db.tables x low high s d m,
      ap (daily_service_of (day_start x) s) t
          ∙ daily_service from to known db.tables x low high s d m,
    )
  ]

-- ===== src/Processor/Reporter/Keeps.antt =====
-- The reporter writes no event, also where it fails half-way.
use pocket_settlement_monito.Prelude.{String, ◌≡◌, refl, List}
use pocket_settlement_monito.Prelude.Exec.{◌>>=◌}
use pocket_settlement_monito.Store.Models.{
  Time, Settlement, OverserviceEvent, ReimbursementEvent, Totals,
}
use pocket_settlement_monito.Store.Tables.{Tables}
use pocket_settlement_monito.Store.Db.{Db, query, execute}
use pocket_settlement_monito.Store.Db.Keeps.{Keeps, statement-Keeps, bind-Keeps, for_each-Keeps}
use pocket_settlement_monito.Store.Period.{count_active_suppliers}
use pocket_settlement_monito.Store.Summaries.{
  set_hourly_service, set_hourly_network, set_daily_service, set_daily_network,
  get_hourly_summary_service, get_hourly_summary_network, get_daily_summary_service,
  get_daily_summary_network, upsert_hourly_summary_service, upsert_hourly_summary_network,
  upsert_daily_summary_service, upsert_daily_summary_network,
}
use pocket_settlement_monito.Processor.Reporter.{
  KnownServices, hour_start, day_start, learn, report_hourly_service, report_hourly_network,
  report_daily_service, report_daily_network, report_summaries, report_block,
}
use pocket_settlement_monito.Processor.Reporter.Summaries.{SameEvents}

-- By computation, for tables that differ in a summary alone.
same_events :
    (u v : Tables)
    → v.settlements ≡ u.settlements
    → v.reward_distributions ≡ u.reward_distributions
    → v.overservice_events ≡ u.overservice_events
    → v.reimbursement_events ≡ u.reimbursement_events
    → v.processed_blocks ≡ u.processed_blocks
    → SameEvents u v
same_events u v s d o r b = record {
  settlements = s;
  reward_distributions = d;
  overservice_events = o;
  reimbursement_events = r;
  processed_blocks = b;
}

module _ (t : Tables) where
  -- Tables with the same events as `u`.
  like : (u v : Tables) → SameEvents u v → SameEvents t u → SameEvents t v
  like u v s w = record {
    settlements = rw s.settlements w.settlements;
    reward_distributions = rw s.reward_distributions w.reward_distributions;
    overservice_events = rw s.overservice_events w.overservice_events;
    reimbursement_events = rw s.reimbursement_events w.reimbursement_events;
    processed_blocks = rw s.processed_blocks w.processed_blocks;
  }

  -- Two reads, then a write to a summary table.
  read_write-Keeps :
      {A B : Type 0} (f : Tables → A) (g : Tables → B) (set : Totals → Tables → Tables)
      (new : A → B → Totals)
      → ((v : Totals) (u : Tables) → SameEvents u (set v u))
      → Keeps (SameEvents t) (query f >>= λ a. query g >>= λ b. execute (set (new a b)))
  read_write-Keeps f g set new same =
      bind-Keeps (SameEvents t) _ _ (statement-Keeps (SameEvents t) _ (λ _ p. p)) λ a.
        bind-Keeps (SameEvents t) _ _ (statement-Keeps (SameEvents t) _ (λ _ p. p))
          λ b. statement-Keeps (SameEvents t) _ (λ u w. like u _ (same (new a b) u) w)

  module _ (ts : Time) (ss : List Settlement) (os : List OverserviceEvent)
      (rs : List ReimbursementEvent) where
    report_hourly_service-Keeps :
        (service : String) → Keeps (SameEvents t) (report_hourly_service ts ss os rs service)
    unfolding report_hourly_service get_hourly_summary_service upsert_hourly_summary_service
        count_active_suppliers
    report_hourly_service-Keeps service =
        read_write-Keeps _ _ (set_hourly_service (hour_start ts) service) _
          (λ _ u. same_events u _ refl refl refl refl refl)

    report_hourly_network-Keeps : Keeps (SameEvents t) (report_hourly_network ts ss os rs)
    unfolding report_hourly_network get_hourly_summary_network upsert_hourly_summary_network
        count_active_suppliers
    report_hourly_network-Keeps =
        read_write-Keeps _ _ (set_hourly_network (hour_start ts)) _
          (λ _ u. same_events u _ refl refl refl refl refl)

    report_daily_service-Keeps :
        (service : String) → Keeps (SameEvents t) (report_daily_service ts ss os rs service)
    unfolding report_daily_service get_daily_summary_service upsert_daily_summary_service
        count_active_suppliers
    report_daily_service-Keeps service =
        read_write-Keeps _ _ (set_daily_service (day_start ts) service) _
          (λ _ u. same_events u _ refl refl refl refl refl)

    report_daily_network-Keeps : Keeps (SameEvents t) (report_daily_network ts ss os rs)
    unfolding report_daily_network get_daily_summary_network upsert_daily_summary_network
        count_active_suppliers
    report_daily_network-Keeps =
        read_write-Keeps _ _ (set_daily_network (day_start ts)) _
          (λ _ u. same_events u _ refl refl refl refl refl)

    report_summaries-Keeps :
        (known : KnownServices) → Keeps (SameEvents t) (report_summaries ts ss os rs known)
    unfolding report_summaries
    report_summaries-Keeps known =
        bind-Keeps (SameEvents t) _ _
          (for_each-Keeps (SameEvents t) _ known report_hourly_service-Keeps)
          λ _. bind-Keeps (SameEvents t) _ _ report_hourly_network-Keeps λ _.
            bind-Keeps (SameEvents t) _ _
              (for_each-Keeps (SameEvents t) _ known report_daily_service-Keeps)
              λ _. report_daily_network-Keeps

pub report_block-SameEvents :
    (ts : Time) (ss : List Settlement) (os : List OverserviceEvent) (rs : List ReimbursementEvent)
    (db : Db) (known : KnownServices)
    → SameEvents db.tables (report_block ts ss os rs (db, known)).1.0.tables
unfolding report_block
report_block-SameEvents ts ss os rs db known =
    (report_summaries-Keeps db.tables ts ss os rs (learn ss known)).at db
      (same_events db.tables db.tables refl refl refl refl refl)

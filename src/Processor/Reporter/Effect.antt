-- ===== src/Processor/Reporter/Effect.antt =====
-- What ReportBlock does to the summary tables when no statement fails.
use pocket_settlement_monito.Prelude.{String, ◌≡◌, true, false, List, [], any, All_every}
use pocket_settlement_monito.Prelude.Eq.{◌=?◌, nat_eq, string_eq, pair_eq}
use pocket_settlement_monito.Prelude.Exec.{◌>>=◌}
use pocket_settlement_monito.Store.Models.{
  Time, Settlement, OverserviceEvent, ReimbursementEvent, Totals,
}
use pocket_settlement_monito.Store.Tables.{Tables}
use pocket_settlement_monito.Store.Tables.Laws.{KeysDistinct}
use pocket_settlement_monito.Store.Db.{
  query, execute, in_turn, Implements, bind-Implements, statement-Implements, execute-Implements,
  then-Implements, for_each-Implements,
}
use pocket_settlement_monito.Store.Db.Walk.{in_turn_once}
use pocket_settlement_monito.Store.Period.{suppliers_in, count_active_suppliers}
use pocket_settlement_monito.Store.Summaries.{
  hourly_service_of, hourly_network_of, daily_service_of, daily_network_of, set_hourly_service,
  set_hourly_network, set_daily_service, set_daily_network, get_hourly_summary_service,
  get_hourly_summary_network, get_daily_summary_service, get_daily_summary_network,
  upsert_hourly_summary_service, upsert_hourly_summary_network, upsert_daily_summary_service,
  upsert_daily_summary_network,
}
use pocket_settlement_monito.Processor.Aggregate.{aggregate_block, accumulate}
use pocket_settlement_monito.Processor.Reporter.{
  KnownServices, hour_start, hour_end, day_start, day_end, settlements_of, reimbursements_of,
  report_hourly_service, report_hourly_network, report_daily_service, report_daily_network,
  report_summaries,
}

-- Read a value, read another, write by both.
read_write :
    {A B : Type 0} (f : Tables → A) (g : Tables → B) (h : A → B → Tables → Tables)
    → Implements (query f >>= λ a. query g >>= λ b. execute (h a b)) (λ t. (tt, h (f t) (g t) t))
read_write f g h =
    bind-Implements (query f) _ (λ t. (f t, t)) (λ a t. (tt, h a (g t) t)) (statement-Implements _)
      λ a.
        bind-Implements (query g) _ (λ t. (g t, t)) (λ b t. (tt, h a b t)) (statement-Implements _)
          λ b. execute-Implements (h a b)

module _ (ts : Time) (ss : List Settlement) (os : List OverserviceEvent)
    (rs : List ReimbursementEvent) where
  abbrev pub service_totals : Totals → String → Time → Time → Tables → Totals
  service_totals current service from to t =
      accumulate current
        (aggregate_block (settlements_of service ss) [] (reimbursements_of service rs))
        (suppliers_in from to service t)

  abbrev pub network_totals : Totals → Time → Time → Tables → Totals
  network_totals current from to t =
      accumulate current (aggregate_block ss os rs) (suppliers_in from to "" t)

  abbrev pub add_hourly_service : String → Tables → Tables
  add_hourly_service service t =
      set_hourly_service (hour_start ts) service
        (service_totals (hourly_service_of (hour_start ts) service t) service (hour_start ts)
          (hour_end ts) t)
        t

  abbrev pub add_hourly_network : Tables → Tables
  add_hourly_network t =
      set_hourly_network (hour_start ts)
        (network_totals (hourly_network_of (hour_start ts) t) (hour_start ts) (hour_end ts) t) t

  abbrev pub add_daily_service : String → Tables → Tables
  add_daily_service service t =
      set_daily_service (day_start ts) service
        (service_totals (daily_service_of (day_start ts) service t) service (day_start ts)
          (day_end ts) t)
        t

  abbrev pub add_daily_network : Tables → Tables
  add_daily_network t =
      set_daily_network (day_start ts)
        (network_totals (daily_network_of (day_start ts) t) (day_start ts) (day_end ts) t) t

  unfoldable pub add_summaries : KnownServices → Tables → Tables
  add_summaries known t =
      add_daily_network
        (in_turn add_daily_service known (add_hourly_network (in_turn add_hourly_service known t)))

  pub report_summaries-Implements :
      (known : KnownServices)
      → Implements (report_summaries ts ss os rs known) (λ t. (tt, add_summaries known t))
  unfolding report_summaries report_hourly_service report_hourly_network report_daily_service
      report_daily_network add_summaries get_hourly_summary_service get_hourly_summary_network
      get_daily_summary_service get_daily_summary_network upsert_hourly_summary_service
      upsert_hourly_summary_network upsert_daily_summary_service upsert_daily_summary_network
      count_active_suppliers
  report_summaries-Implements known =
      then-Implements _ _ (in_turn add_hourly_service known) _
        (for_each-Implements _ add_hourly_service known (λ service. read_write _ _ _))
        (then-Implements _ _ add_hourly_network _ (read_write _ _ _) (
          then-Implements _ _ (in_turn add_daily_service known) add_daily_network
            (for_each-Implements _ add_daily_service known (λ service. read_write _ _ _))
            (read_write _ _ _)))

-- The walk over a set of services: each service of the set is handled once, and no other.
module _ (f : String → Tables → Tables) (look new : String → Tables → Totals)
    (at : (s : String) (t : Tables) → look s (f s t) ≡ new s t)
    (look_frame : (s r : String) (t : Tables) → (r =? s) ≡ false → look s (f r t) ≡ look s t)
    (new_frame : (s r : String) (t : Tables) → (r =? s) ≡ false → new s (f r t) ≡ new s t) where
  pub walk_member :
      (s : String) (known : KnownServices) (t : Tables)
      → KeysDistinct (λ r. r) known
      → any (λ r. r =? s) known ≡ true
      → look s (in_turn f known t) ≡ new s t
  walk_member s known t d h =
      in_turn_once f look (λ _. Unit) (λ s r t _ _. look_frame s r t) s tt new (λ s t _. at s t)
        (λ s r t _ _. new_frame s r t) known t (All_every _ known (λ _. tt)) d h

-- ===== src/Processor/Recalculate/Laws.antt =====
-- What the recalculation uses of a pair of summary tables, that of the services and that of the network:
-- their starts of periods, and reads after writes. Hours and days have it.
use pocket_settlement_monito.Prelude.{◌+◌, ◌≤◌, ◌<◌, String, ◌≡◌, refl, true, false, arith}
use pocket_settlement_monito.Prelude.Eq.{
  ◌=?◌, nat_eq, string_eq, pair_eq, pair_differs, first_differs,
}
use pocket_settlement_monito.Store.Models.{Time, rfc3339, Totals}
use pocket_settlement_monito.Store.Tables.{Tables}
use pocket_settlement_monito.Store.Tables.Laws.{get_summary-upsert_same, get_summary-upsert_other}
use pocket_settlement_monito.Store.Db.{Implements, execute-Implements}
use pocket_settlement_monito.Store.Period.{in_period}
use pocket_settlement_monito.Store.Summaries.{
  hourly_service_of, hourly_network_of, daily_service_of, daily_network_of, set_hourly_service,
  set_hourly_network, set_daily_service, set_daily_network, upsert_hourly_summary_service,
  upsert_hourly_summary_network, upsert_daily_summary_service, upsert_daily_summary_network,
}
use pocket_settlement_monito.Processor.Reporter.{day_start, day_end}
use pocket_settlement_monito.Processor.Recalculate.{Periods, hours, days}

-- The tables' rows as functions, and the writes.
pub record Rows : Type 0 where
  pub service_of : Time → String → Tables → Totals
  pub network_of : Time → Tables → Totals
  pub set_service : Time → String → Totals → Tables → Tables
  pub set_network : Time → Totals → Tables → Tables

abbrev pub hour_rows : Rows
hour_rows = record {
  service_of = hourly_service_of;
  network_of = hourly_network_of;
  set_service = set_hourly_service;
  set_network = set_hourly_network;
}

abbrev pub day_rows : Rows
day_rows = record {
  service_of = daily_service_of;
  network_of = daily_network_of;
  set_service = set_daily_service;
  set_network = set_daily_network;
}

pub record IsStore (p : Periods) (w : Rows) : Type 0 where
  pub service :
      (a : Time) (s : String) (v : Totals)
      → Implements (p.upsert_service a s v) (λ t. (tt, w.set_service a s v t))
  pub network :
      (a : Time) (v : Totals) → Implements (p.upsert_network a v) (λ t. (tt, w.set_network a v t))
  pub service_same :
      (a : Time) (s : String) (v : Totals) (t : Tables)
      → w.service_of a s (w.set_service a s v t) ≡ v
  pub service_time :
      (a b : Time) (s r : String) (v : Totals) (t : Tables)
      → (rfc3339 b =? rfc3339 a) ≡ false
      → w.service_of a s (w.set_service b r v t) ≡ w.service_of a s t
  pub service_name :
      (a : Time) (s r : String) (v : Totals) (t : Tables)
      → (r =? s) ≡ false
      → w.service_of a s (w.set_service a r v t) ≡ w.service_of a s t
  pub network_same : (a : Time) (v : Totals) (t : Tables) → w.network_of a (w.set_network a v t) ≡ v
  pub network_time :
      (a b : Time) (v : Totals) (t : Tables)
      → (rfc3339 b =? rfc3339 a) ≡ false
      → w.network_of a (w.set_network b v t) ≡ w.network_of a t
  pub service_apart :
      (a b : Time) (s : String) (v : Totals) (t : Tables)
      → w.service_of a s (w.set_network b v t) ≡ w.service_of a s t
  pub network_apart :
      (a b : Time) (r : String) (v : Totals) (t : Tables)
      → w.network_of a (w.set_service b r v t) ≡ w.network_of a t
  pub service_settlements :
      (a : Time) (s : String) (v : Totals) (t : Tables)
      → (w.set_service a s v t).settlements ≡ t.settlements
  pub network_settlements :
      (a : Time) (v : Totals) (t : Tables) → (w.set_network a v t).settlements ≡ t.settlements

-- Starts of periods: a time has the start `a` just if its text lies in the period from `a`; different
-- starts have different texts; and a day is cut into whole periods.
pub record IsCalendar (p : Periods) : Type 0 where
  pub start_idem : (x : Time) → p.start_of (p.start_of x) ≡ p.start_of x
  pub start-in_period :
      (a x : Time) → p.start_of a ≡ a → (p.start_of x =? a) ≡ in_period a (a + p.span) x
  pub texts_differ :
      (a b : Time)
      → p.start_of a ≡ a
      → p.start_of b ≡ b
      → (b =? a) ≡ false
      → (rfc3339 b =? rfc3339 a) ≡ false
  pub whole :
      (from to a x : Time)
      → p.start_of a ≡ a
      → day_start from ≤ a
      → a < day_end to
      → in_period a (a + p.span) x ≡ true
      → in_period (day_start from) (day_end to) x ≡ true
  pub inside :
      (from to x : Time)
      → in_period (day_start from) (day_end to) x ≡ true
      → (day_start from ≤ p.start_of x) × (p.start_of x < day_end to)

pub hours-IsCalendar : IsCalendar hours
hours-IsCalendar = record {
  start_idem = λ x. omega arith;
  start-in_period = λ a x h. ground arith;
  texts_differ = λ a b ha hb h. ground arith;
  whole = λ from to a x h l u i. ground arith;
  inside = λ from to x h. ground arith;
}

pub days-IsCalendar : IsCalendar days
days-IsCalendar = record {
  start_idem = λ x. omega arith;
  start-in_period = λ a x h. ground arith;
  texts_differ = λ a b ha hb h. ground arith;
  whole = λ from to a x h l u i. ground arith;
  inside = λ from to x h. ground arith;
}

pub hours-IsStore : IsStore hours hour_rows
unfolding upsert_hourly_summary_service upsert_hourly_summary_network
hours-IsStore = record {
  service = λ a s v. execute-Implements (set_hourly_service a s v);
  network = λ a v. execute-Implements (set_hourly_network a v);
  service_same = λ a s v t. get_summary-upsert_same (rfc3339 a, s) v t.hourly_summaries_service;
  service_time = λ a b s r v t n.
      get_summary-upsert_other (rfc3339 b, r) (rfc3339 a, s) v t.hourly_summaries_service
        (first_differs (rfc3339 b) (rfc3339 a) r s n);
  service_name = λ a s r v t n.
      get_summary-upsert_other (rfc3339 a, r) (rfc3339 a, s) v t.hourly_summaries_service
        (pair_differs (rfc3339 a) r s n);
  network_same = λ a v t. get_summary-upsert_same (rfc3339 a) v t.hourly_summaries_network;
  network_time =
      λ a b v t n. get_summary-upsert_other (rfc3339 b) (rfc3339 a) v t.hourly_summaries_network n;
  service_apart = λ a b s v t. refl;
  network_apart = λ a b r v t. refl;
  service_settlements = λ a s v t. refl;
  network_settlements = λ a v t. refl;
}

pub days-IsStore : IsStore days day_rows
unfolding upsert_daily_summary_service upsert_daily_summary_network
days-IsStore = record {
  service = λ a s v. execute-Implements (set_daily_service a s v);
  network = λ a v. execute-Implements (set_daily_network a v);
  service_same = λ a s v t. get_summary-upsert_same (rfc3339 a, s) v t.daily_summaries_service;
  service_time = λ a b s r v t n.
      get_summary-upsert_other (rfc3339 b, r) (rfc3339 a, s) v t.daily_summaries_service
        (first_differs (rfc3339 b) (rfc3339 a) r s n);
  service_name = λ a s r v t n.
      get_summary-upsert_other (rfc3339 a, r) (rfc3339 a, s) v t.daily_summaries_service
        (pair_differs (rfc3339 a) r s n);
  network_same = λ a v t. get_summary-upsert_same (rfc3339 a) v t.daily_summaries_network;
  network_time =
      λ a b v t n. get_summary-upsert_other (rfc3339 b) (rfc3339 a) v t.daily_summaries_network n;
  service_apart = λ a b s v t. refl;
  network_apart = λ a b r v t. refl;
  service_settlements = λ a s v t. refl;
  network_settlements = λ a v t. refl;
}

-- The writes of `w` leave `field` alone.
pub record Leaves (w : Rows) {F : Type 0} (field : Tables → F) : Type 0 where
  pub service :
      (b : Time) (r : String) (v : Totals) (t : Tables) → field (w.set_service b r v t) ≡ field t
  pub network : (b : Time) (v : Totals) (t : Tables) → field (w.set_network b v t) ≡ field t

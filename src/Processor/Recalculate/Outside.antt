-- ===== src/Processor/Recalculate/Outside.antt =====
-- RecalculateSummariesForRange writes no row outside its range.
use pocket_settlement_monito.Prelude.{
  ◌≤◌, ◌<◌, String, ◌≡◌, refl, ap, ◌∙◌, ◌⊎◌, inl, inr, false, List, [], ◌∷◌, any, All, Bool-cases,
  subst, arith,
}
use pocket_settlement_monito.Prelude.Eq.{◌=?◌, nat_eq, eq_of_=?}
use pocket_settlement_monito.Prelude.Exec.{ok, err, store}
use pocket_settlement_monito.Store.Models.{Time}
use pocket_settlement_monito.Store.Tables.{Tables}
use pocket_settlement_monito.Store.Db.{Db, Fails}
use pocket_settlement_monito.Store.Summaries.{
  hourly_service_of, hourly_network_of, daily_service_of, daily_network_of,
}
use pocket_settlement_monito.Processor.Reporter.{KnownServices, hour_start, day_start, day_end}
use pocket_settlement_monito.Processor.Recalculate.{
  Periods, hours, days, recalculate_summaries_for_range,
}
use pocket_settlement_monito.Processor.Recalculate.Laws.{
  Rows, hour_rows, day_rows, IsStore, IsCalendar, hours-IsStore, days-IsStore, hours-IsCalendar,
  days-IsCalendar,
}
use pocket_settlement_monito.Processor.Recalculate.Effect.{network_untouched, service_untouched}
use pocket_settlement_monito.Processor.Recalculate.Starts.{
  IsStartInRange, range_starts, range_starts-All, range_starts_aligned, range_settlements,
  range_overservices, range_reimbursements,
}
use pocket_settlement_monito.Processor.Recalculate.Rebuilt.{rebuild_periods}
use pocket_settlement_monito.Processor.Recalculate.Range.{services, all_rebuilt, range_outcome}
use pocket_settlement_monito.Processor.Recalculate.Summaries.{
  leaves, days_frame, hours_frame, hours_done,
}

-- What lies before the first day of the range, or after its last.
abbrev pub IsOutside : Time → Time → Time → Type 0
IsOutside from to x = (x < day_start from) ⊎ (day_end to ≤ x)

not_any :
    (P : Time → Type 0) (a : Time) (starts : List Time)
    → All P starts
    → (P a → ⊥)
    → any (λ b. b =? a) starts ≡ false
not_any P a [] h n = refl
not_any P a (b ∷ starts) h n = elim (Bool-cases (b =? a)) [
  | inl hit ↦ absurd (n (subst P (eq_of_=? b a hit) h.0))
  | inr miss ↦ rw miss (not_any P a starts h.1 n)
]

module _ (p : Periods) (w : Rows) (st : IsStore p w) (c : IsCalendar p) (from to : Time)
    (known : KnownServices) (t : Tables) (a : Time) (start : p.start_of a ≡ a)
    (out : IsOutside from to a) (u : Tables) where
  no_start : any (λ b. b =? a) (range_starts p from to t) ≡ false
  no_start =
      not_any (IsStartInRange p c from to t) a (range_starts p from to t)
        (range_starts-All p c from to t) λ h. ground arith

  network_outside : w.network_of a (rebuild_periods p w from to known t u) ≡ w.network_of a u
  network_outside =
      network_untouched p w (range_settlements from to t) (range_overservices from to t)
        (range_reimbursements from to t) st c known (range_starts p from to t)
        (range_starts_aligned p c from to t) a start u no_start

  service_outside :
      (s : String) → w.service_of a s (rebuild_periods p w from to known t u) ≡ w.service_of a s u
  service_outside s =
      service_untouched p w (range_settlements from to t) (range_overservices from to t)
        (range_reimbursements from to t) st c known (range_starts p from to t)
        (range_starts_aligned p c from to t) a start u s no_start

module _ (from to : Time) (known : KnownServices) (t : Tables) (x : Time)
    (out : IsOutside from to x) where
  abbrev done : Tables
  done = hours_done from to known t

  abbrev known' : KnownServices
  known' = services from to known t

  hourly_network_outside :
      hourly_network_of (hour_start x) (all_rebuilt from to known t)
      ≡ hourly_network_of (hour_start x) t
  hourly_network_outside =
      days_frame from to known t (hourly_network_of (hour_start x))
        (leaves (λ _ _ _ _. refl) (λ _ _ _. refl))
      ∙ network_outside hours hour_rows hours-IsStore hours-IsCalendar from to known' t
          (hour_start x) (hours-IsCalendar.start_idem x) (ground arith) t

  hourly_service_outside :
      (s : String)
      → hourly_service_of (hour_start x) s (all_rebuilt from to known t)
        ≡ hourly_service_of (hour_start x) s t
  hourly_service_outside s =
      days_frame from to known t (hourly_service_of (hour_start x) s)
        (leaves (λ _ _ _ _. refl) (λ _ _ _. refl))
      ∙ service_outside hours hour_rows hours-IsStore hours-IsCalendar from to known' t
          (hour_start x) (hours-IsCalendar.start_idem x) (ground arith) t s

  daily_network_outside :
      daily_network_of (day_start x) (all_rebuilt from to known t)
      ≡ daily_network_of (day_start x) t
  unfolding all_rebuilt
  daily_network_outside =
      network_outside days day_rows days-IsStore days-IsCalendar from to known' t (day_start x)
        (days-IsCalendar.start_idem x) (ground arith) done
      ∙ hours_frame from to known t (daily_network_of (day_start x))
          (leaves (λ _ _ _ _. refl) (λ _ _ _. refl))

  daily_service_outside :
      (s : String)
      → daily_service_of (day_start x) s (all_rebuilt from to known t)
        ≡ daily_service_of (day_start x) s t
  unfolding all_rebuilt
  daily_service_outside s =
      service_outside days day_rows days-IsStore days-IsCalendar from to known' t (day_start x)
        (days-IsCalendar.start_idem x) (ground arith) done s
      ∙ hours_frame from to known t (daily_service_of (day_start x) s)
          (leaves (λ _ _ _ _. refl) (λ _ _ _. refl))

-- For an instant before the day of `from`, or after the day of `to`, RecalculateSummariesForRange returns a
-- failed statement's error, or no error and leaves the rows of that instant's hour and day, the network's
-- and every service's, as they were.
pub recalculate_outside :
    (from to : Time) (known : KnownServices) (db : Db) (x : Time) (s : String)
    → IsOutside from to x
    → let t = db.tables in
      let (r, after) = recalculate_summaries_for_range from to (db, known) in
      ((r ≡ err store) × Fails db)
      ⊎ ((r ≡ ok tt)
          × (hourly_network_of (hour_start x) after.0.tables ≡ hourly_network_of (hour_start x) t)
          × (hourly_service_of (hour_start x) s after.0.tables
              ≡ hourly_service_of (hour_start x) s t)
          × (daily_network_of (day_start x) after.0.tables ≡ daily_network_of (day_start x) t)
          × (daily_service_of (day_start x) s after.0.tables ≡ daily_service_of (day_start x) s t))
recalculate_outside from to known db x s out = elim (range_outcome from to known db) [
  | inl failed ↦ inl failed
  | inr (e, t) ↦ inr (
    e,
    ap (hourly_network_of (hour_start x)) t ∙ hourly_network_outside from to known db.tables x out,
    ap (hourly_service_of (hour_start x) s) t
        ∙ hourly_service_outside from to known db.tables x out s,
    ap (daily_network_of (day_start x)) t ∙ daily_network_outside from to known db.tables x out,
    ap (daily_service_of (day_start x) s) t ∙ daily_service_outside from to known db.tables x out s,
  )
]

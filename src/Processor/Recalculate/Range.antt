-- ===== src/Processor/Recalculate/Range.antt =====
-- RecalculateSummariesForRange as a whole: its outcomes, and the summaries that it leaves.
use pocket_settlement_monito.Prelude.{◌≡◌, refl, ap, ◌∙◌, ◌⊎◌, inl, inr, List}
use pocket_settlement_monito.Prelude.Eq.{string_eq}
use pocket_settlement_monito.Prelude.Exec.{ok, err, store, Result, Exec, continue, ◌>>=◌}
use pocket_settlement_monito.Store.Models.{Time, Settlement, OverserviceEvent, ReimbursementEvent}
use pocket_settlement_monito.Store.Tables.{Tables}
use pocket_settlement_monito.Store.Db.{
  Db, Fails, in_turn, Implements, bind-Implements, statement-Implements, pure-Implements,
  then-Implements,
}
use pocket_settlement_monito.Store.Period.{
  query_settlements_for_period, query_overservice_events_for_period,
  query_reimbursement_events_for_period,
}
use pocket_settlement_monito.Processor.Reporter.{KnownServices, day_start, day_end, learn}
use pocket_settlement_monito.Processor.Recalculate.{
  hours, days, Events, query_events, rebuild, recalculate_summaries, distinct_starts,
  recalculate_summaries_for_range,
}
use pocket_settlement_monito.Processor.Recalculate.Laws.{
  hour_rows, day_rows, hours-IsStore, days-IsStore,
}
use pocket_settlement_monito.Processor.Recalculate.Effect.{
  put_period, recalculate_period-Implements,
}
use pocket_settlement_monito.Processor.Recalculate.Starts.{
  range_settlements, range_overservices, range_reimbursements,
}
use pocket_settlement_monito.Processor.Recalculate.Rebuilt.{rebuild_periods}

query_events-Implements :
    (from to : Time)
    → Implements (query_events (day_start from) (day_end to)) (λ t. (
      (range_settlements from to t, (range_overservices from to t, range_reimbursements from to t)),
      t,
    ))
unfolding query_events query_settlements_for_period query_overservice_events_for_period
    query_reimbursement_events_for_period
query_events-Implements from to =
    bind-Implements _ _ (λ t. (range_settlements from to t, t)) _ (statement-Implements _)
      λ ss.
        bind-Implements _ _ (λ t. (range_overservices from to t, t)) _ (statement-Implements _)
          λ os.
            bind-Implements _ _ (λ t. (range_reimbursements from to t, t)) _
              (statement-Implements _) λ rs. pure-Implements (ss, (os, rs))

recalculate_summaries-Implements :
    (ss : List Settlement) (os : List OverserviceEvent) (rs : List ReimbursementEvent)
    (known : KnownServices)
    → Implements (recalculate_summaries ss os rs known) (λ t. (
      tt,
      in_turn
          (put_period days day_rows ss os rs known)
          (distinct_starts days ss os rs)
          (in_turn (put_period hours hour_rows ss os rs known) (distinct_starts hours ss os rs) t),
    ))
unfolding recalculate_summaries
recalculate_summaries-Implements ss os rs known =
    then-Implements _ _
      (in_turn (put_period hours hour_rows ss os rs known) (distinct_starts hours ss os rs))
      (in_turn (put_period days day_rows ss os rs known) (distinct_starts days ss os rs))
      (recalculate_period-Implements hours hour_rows ss os rs hours-IsStore known
        (distinct_starts hours ss os rs))
      (recalculate_period-Implements days day_rows ss os rs days-IsStore known
        (distinct_starts days ss os rs))

module _ (from to : Time) (known : KnownServices) where
  abbrev after_query : Events → Exec Db Unit
  after_query (ss, (os, rs)) = recalculate_summaries ss os rs (learn ss known)

  -- The services that the reporter knows when it rebuilds.
  abbrev pub services : Tables → KnownServices
  services t = learn (range_settlements from to t) known

  abbrev hours_rebuilt : Tables → Tables
  hours_rebuilt t = rebuild_periods hours hour_rows from to (services t) t t

  unfoldable pub all_rebuilt : Tables → Tables
  all_rebuilt t = rebuild_periods days day_rows from to (services t) t (hours_rebuilt t)

  rebuild-continue :
      (r : Result Events) (db : Db)
      → ((rebuild known (r, db)).0 ≡ (continue r after_query db).0)
        × ((rebuild known (r, db)).1.0 ≡ (continue r after_query db).1)
  rebuild-continue (ok (ss, (os, rs))) db = (refl, refl)
  rebuild-continue (err e) db = (refl, refl)

  -- The error of a failed statement, or the rows rebuilt.
  pub range_outcome :
      (db : Db)
      → let (r, after) = recalculate_summaries_for_range from to (db, known) in
        ((r ≡ err store) × Fails db) ⊎ ((r ≡ ok tt) × (after.0.tables ≡ all_rebuilt db.tables))
  unfolding recalculate_summaries_for_range all_rebuilt
  range_outcome db =
      let both : Implements (query_events (day_start from) (day_end to) >>= after_query)
          (λ t. (tt, all_rebuilt t)) =
        bind-Implements _ after_query _ _ (query_events-Implements from to)
          λ (ss, (os, rs)). recalculate_summaries-Implements ss os rs (learn ss known) in
      let (q, db') = query_events (day_start from) (day_end to) db in
      let same = rebuild-continue q db' in
      elim (both.at db) [
        | inl (e, f) ↦ inl (same.0 ∙ e, f)
        | inr (e, t, _) ↦ inr (same.0 ∙ e, ap (λ d. d.tables) same.1 ∙ t)
      ]

-- ===== src/Processor/Reporter/Report.antt =====
-- ReportBlock as a whole: its outcomes, and what it adds to the summaries.
use pocket_settlement_monito.Prelude.{
  String, ◌≡◌, refl, ap, ◌∙◌, ◌⊎◌, inl, inr, true, List, [], ◌∷◌, any, Bool-cases, if◌then◌else◌,
}
use pocket_settlement_monito.Prelude.Eq.{◌=?◌, nat_eq, string_eq, pair_eq}
use pocket_settlement_monito.Prelude.Maps.{add_to}
use pocket_settlement_monito.Prelude.Exec.{ok, err, store}
use pocket_settlement_monito.Store.Models.{
  Time, rfc3339, Settlement, OverserviceEvent, ReimbursementEvent, Totals,
}
use pocket_settlement_monito.Store.Tables.{Tables, get_summary}
use pocket_settlement_monito.Store.Tables.Laws.{
  get_summary-upsert, KeysDistinct, KeysDistinct-append,
}
use pocket_settlement_monito.Store.Db.{Db, Fails}
use pocket_settlement_monito.Store.Summaries.{
  hourly_service_of, hourly_network_of, daily_service_of, daily_network_of,
}
use pocket_settlement_monito.Processor.Reporter.{
  KnownServices, hour_start, hour_end, day_start, day_end, learn, report_block,
}
use pocket_settlement_monito.Processor.Reporter.Effect.{
  service_totals, network_totals, report_summaries-Implements,
}
use pocket_settlement_monito.Processor.Reporter.Summaries.{
  SameEvents, result-SameEvents, result-hourly_table, result-daily_table, result-hourly_service,
  result-daily_service,
}

add_to-KeysDistinct :
    (k : String) (known : KnownServices)
    → KeysDistinct (λ r. r) known
    → KeysDistinct (λ r. r) (add_to k known)
unfolding add_to
add_to-KeysDistinct k known d = elim (Bool-cases (any (λ j. j =? k) known)) [
  | inl old ↦ rw old d
  | inr new ↦ rw new (KeysDistinct-append (λ r. r) known k d new)
]

pub learn-KeysDistinct :
    (ss : List Settlement) (known : KnownServices)
    → KeysDistinct (λ r. r) known
    → KeysDistinct (λ r. r) (learn ss known)
unfolding learn
learn-KeysDistinct [] known d = d
learn-KeysDistinct (s ∷ ss) known d = elim (Bool-cases (s.service_id =? "")) [
  | inl empty ↦ rw empty (learn-KeysDistinct ss known d)
  | inr named ↦
      rw named (
        learn-KeysDistinct ss (add_to s.service_id known)
          (add_to-KeysDistinct s.service_id known d))
]

module _ (ts : Time) (ss : List Settlement) (os : List OverserviceEvent)
    (rs : List ReimbursementEvent) (known : KnownServices) (db : Db) where
  abbrev pub services : KnownServices
  services = learn ss known

  abbrev pub totals_of_network : Tables → Time → Time → Totals → Totals
  totals_of_network old from to current = network_totals ts ss os rs current from to old

  abbrev pub totals_of_service : Tables → String → Time → Time → Totals → Totals
  totals_of_service old s from to current = service_totals ts ss os rs current s from to old

  -- ReportBlock has two outcomes: an error, which a failed statement gives, or no error, and then the
  -- network's rows of the block's hour and day have the block's totals added and the number of
  -- suppliers counted anew, every other hour and day keeps its network row, and the events and the
  -- processed blocks are unchanged. In both, the services of the block have joined the known ones.
  pub report_block_network :
      (hour day : Time)
      → let (r, after) = report_block ts ss os rs (db, known) in
        (after.1 ≡ services)
        × (((r ≡ err store) × Fails db)
            ⊎ ((r ≡ ok tt)
                × (hourly_network_of hour after.0.tables ≡ (
                    if rfc3339 (hour_start ts) =? rfc3339 hour
                    then totals_of_network db.tables
                        (hour_start ts)
                        (hour_end ts)
                        (hourly_network_of (hour_start ts) db.tables)
                    else hourly_network_of hour db.tables))
                × (daily_network_of day after.0.tables ≡ (
                    if rfc3339 (day_start ts) =? rfc3339 day
                    then totals_of_network db.tables
                        (day_start ts)
                        (day_end ts)
                        (daily_network_of (day_start ts) db.tables)
                    else daily_network_of day db.tables))
                × SameEvents db.tables after.0.tables))
  unfolding report_block
  report_block_network hour day = (
    refl,
    elim ((report_summaries-Implements ts ss os rs services).at db) [
      | inl (e, f) ↦ inl (e, f)
      | inr (e, t, _) ↦ inr (
        e,
        ap (λ u. hourly_network_of hour u) t
            ∙ ap (get_summary (rfc3339 hour)) (result-hourly_table ts ss os rs services db.tables)
            ∙ get_summary-upsert (rfc3339 (hour_start ts)) (rfc3339 hour) _
                db.tables.hourly_summaries_network,
        ap (λ u. daily_network_of day u) t
            ∙ ap (get_summary (rfc3339 day)) (result-daily_table ts ss os rs services db.tables)
            ∙ get_summary-upsert (rfc3339 (day_start ts)) (rfc3339 day) _
                db.tables.daily_summaries_network,
        rw t (result-SameEvents ts ss os rs services db.tables),
      )
    ],
  )

  -- The same for a service that is known or is of the block, where the known services are a set: with no
  -- error, its rows of the block's hour and day have the block's totals of that service added, which
  -- leave out overservicing, and its suppliers counted anew.
  pub report_block_service :
      (s : String)
      → KeysDistinct (λ r. r) known
      → any (λ r. r =? s) services ≡ true
      → let (r, after) = report_block ts ss os rs (db, known) in
        ((r ≡ err store) × Fails db)
        ⊎ ((r ≡ ok tt)
            × (hourly_service_of (hour_start ts) s after.0.tables
                ≡ totals_of_service db.tables s
                    (hour_start ts)
                    (hour_end ts)
                    (hourly_service_of (hour_start ts) s db.tables))
            × (daily_service_of (day_start ts) s after.0.tables
                ≡ totals_of_service db.tables s
                    (day_start ts)
                    (day_end ts)
                    (daily_service_of (day_start ts) s db.tables)))
  unfolding report_block
  report_block_service s d h =
      let distinct = learn-KeysDistinct ss known d in
      elim ((report_summaries-Implements ts ss os rs services).at db) [
        | inl (e, f) ↦ inl (e, f)
        | inr (e, t, _) ↦ inr (
          e,
          ap (λ u. hourly_service_of (hour_start ts) s u) t
              ∙ result-hourly_service ts ss os rs services db.tables s distinct h,
          ap (λ u. daily_service_of (day_start ts) s u) t
              ∙ result-daily_service ts ss os rs services db.tables s distinct h,
        )
      ]

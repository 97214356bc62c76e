-- ===== src/Processor/Pipeline/Outcome.antt =====
-- What ProcessBlock does to the database, the metrics and the notifier.
use pocket_settlement_monito.Prelude.{
  ◌≡◌, refl, subst, ◌∙◌, ◌⊎◌, inl, inr, Bool, false, List, [], ◌∷◌, ◌++◌, fold, arith,
  if◌then◌else◌,
}
use pocket_settlement_monito.Prelude.Words.{Int64}
use pocket_settlement_monito.Prelude.Exec.{Result, ok, err, store, continue}
use pocket_settlement_monito.Store.Models.{
  Time, Settlement, OverserviceEvent, settled, expired, slashed, discarded, EventType,
  ProcessedBlock,
}
use pocket_settlement_monito.Store.Tables.{Tables}
use pocket_settlement_monito.Store.Db.{Db, Fails}
use pocket_settlement_monito.Store.Insert.{write_block, insert_block_events}
use pocket_settlement_monito.Store.Insert.Atomic.{insert_block_events_atomic}
use pocket_settlement_monito.Subscriber.Types.{SettlementEvent}
use pocket_settlement_monito.Metrics.{LabelConfig, Registry, when_live, last_processed_height}
use pocket_settlement_monito.Processor.Convert.{Externals}
use pocket_settlement_monito.Processor.Filter.{SupplierFilter}
use pocket_settlement_monito.Processor.Reporter.{report_block}
use pocket_settlement_monito.Processor.Reporter.Summaries.{SameEvents}
use pocket_settlement_monito.Processor.Reporter.Keeps.{report_block-SameEvents}
use pocket_settlement_monito.Processor.Batch.{Batch}
use pocket_settlement_monito.Processor.Pipeline.{
  World, block_rows, block_record, report, notify, dispatch, notification_of, dispatch_metrics,
  dispatch_settlement, dispatch_overservice, dispatch_settled, dispatch_expired, dispatch_slashed,
  dispatch_typed, process_block,
}

-- A fold of steps that do nothing.
fold_same :
    {A : Type 0} (step : Registry → A → Registry)
    → ((m : Registry) (a : A) → step m a ≡ m)
    → (xs : List A) (m : Registry) → fold step m xs ≡ m
fold_same step same [] m = refl
fold_same step same (a ∷ xs) m = fold_same step same xs (step m a) ∙ same m a

module _ (x : Externals) (lc : LabelConfig) (f : SupplierFilter) (height : Int64) (ts : Time)
    (events : List SettlementEvent) (is_live : Bool) (w : World) where
  abbrev batch : Batch
  batch = block_rows x lc f height ts events

  abbrev block : ProcessedBlock
  block = block_record x lc f height ts events is_live

  abbrev stored : Tables
  stored =
      write_block block batch.settlements batch.rewards batch.overservices batch.reimbursements
        w.db.tables

  abbrev pub Failed : Result (Unit {0}) × World → Type 0
  Failed (r, after) =
      (r ≡ err store)
      × Fails w.db
      × (after.db.tables ≡ w.db.tables)
      × (after.known_services ≡ w.known_services)
      × (after.metrics ≡ w.metrics)
      × (after.notified ≡ w.notified)

  abbrev pub Processed : Result (Unit {0}) × World → Type 0
  Processed (r, after) =
      (r ≡ ok tt)
      × SameEvents stored after.db.tables
      × (after.metrics
          ≡ dispatch_metrics lc height is_live batch.settlements batch.overservices w.metrics)
      × (after.notified ≡ (
          if is_live then w.notified ++ notification_of x lc f height batch ∷ [] else w.notified))

  abbrev finish : World → World
  finish w' =
      notify x lc f height is_live batch
        (report x lc f ts batch (dispatch x lc f height is_live batch w'))

  finished : (db : Db) → db.tables ≡ stored → Processed (ok tt, finish (record w { db = db }))
  finished db t = (
    refl,
    subst
        (λ u.
          SameEvents u
            (report_block ts batch.settlements batch.overservices batch.reimbursements
              (db, w.known_services)).1.0.tables)
        t
        (report_block-SameEvents ts batch.settlements batch.overservices batch.reimbursements db
          w.known_services),
    refl,
    refl,
  )

  inserted :
      (r : Result (Unit {0})) (db : Db)
      → ((r ≡ err store) × (db.tables ≡ w.db.tables) × Fails w.db)
        ⊎ ((r ≡ ok tt) × (db.tables ≡ stored))
      → let out : Result (Unit {0}) × World =
          continue r (λ _ w'. (ok tt, finish w')) (record w { db = db }) in
        Failed out ⊎ Processed out
  inserted r db (inl (e, same, fails)) = rw e (inl (refl, fails, same, refl, refl, refl))
  inserted r db (inr (e, t)) = rw e (inr (finished db t))

  -- ProcessBlock has two outcomes. An error, which a failed statement gives: then the tables, the
  -- reporter's services, the metrics and the notifications are as they were. Or no error: then the events
  -- of the database are those that the block's rows write, whatever the reporter does, the metrics are
  -- dispatched, and the notifier is called for a live block and for no other.
  pub process_block_outcome :
      Failed (process_block x lc f height ts events is_live w)
      ⊎ Processed (process_block x lc f height ts events is_live w)
  unfolding process_block
  process_block_outcome =
      let out =
        insert_block_events block batch.settlements batch.rewards batch.overservices
          batch.reimbursements w.db in
      inserted out.0 out.1 (
        insert_block_events_atomic block batch.settlements batch.rewards batch.overservices
          batch.reimbursements w.db)

module _ (lc : LabelConfig) (height : Int64) where
  dispatch_settlement_backfill :
      (m : Registry) (s : Settlement) → dispatch_settlement lc height false m s ≡ m
  unfolding dispatch_settlement dispatch_settled dispatch_expired dispatch_slashed when_live
  dispatch_settlement_backfill m s = typed s.event_type
    where
      typed : (t : EventType) → dispatch_typed lc height false t s m ≡ m
      typed settled = ground arith
      typed expired = ground arith
      typed slashed = refl
      typed discarded = refl

  dispatch_overservice_backfill :
      (m : Registry) (o : OverserviceEvent) → dispatch_overservice lc height false m o ≡ m
  unfolding dispatch_overservice when_live
  dispatch_overservice_backfill m o = ground arith

  -- For a block that is not live the dispatch sets the gauge of the last processed height, and touches no
  -- counter and no histogram.
  pub dispatch_metrics_backfill :
      (ss : List Settlement) (os : List OverserviceEvent) (m : Registry)
      → dispatch_metrics lc height false ss os m ≡ m ++ last_processed_height height ∷ []
  unfolding dispatch_metrics
  dispatch_metrics_backfill ss os m =
      fold_same (dispatch_overservice lc height false) dispatch_overservice_backfill os _
      ∙ fold_same (dispatch_settlement lc height false) dispatch_settlement_backfill ss _

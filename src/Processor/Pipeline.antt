-- ===== src/Processor/Pipeline.antt =====
-- processor/processor.go: ProcessBlock with its dispatches. The notifier runs in a goroutine of its
-- own: `notified` is the list of the calls that were started.
pub mod Outcome
use pocket_settlement_monito.Prelude.{
  ℕ, ◌==◌, String, Bool, true, false, List, [], ◌∷◌, ◌++◌, length, fold, if◌then◌else◌,
}
use pocket_settlement_monito.Prelude.Words.{Int64, slt, sub64}
use pocket_settlement_monito.Prelude.Exec.{Result, ok, err, Exec, ◌>>=◌, ◌>>◌}
use pocket_settlement_monito.Store.Models.{
  Time, EventType, settled, expired, slashed, discarded, Settlement, OverserviceEvent,
  ReimbursementEvent, Source, live, backfill, ProcessedBlock,
}
use pocket_settlement_monito.Store.Db.{Db}
use pocket_settlement_monito.Store.Insert.{RewardMap, insert_block_events}
use pocket_settlement_monito.Subscriber.Types.{SettlementEvent}
use pocket_settlement_monito.Metrics.{
  LabelConfig, Registry, upokt_earned, upokt_lost_expired, upokt_claimed, relays_settled,
  relays_expired, estimated_relays_settled, estimated_relays_expired, compute_units_settled,
  estimated_compute_units_settled, record_claim_settled, record_claim_expired,
  record_supplier_slashed, record_claim_discarded, record_application_overserviced, record_revenue,
  record_relays, record_overservice_amount, observe_latency, set_last_processed_height,
}
use pocket_settlement_monito.Processor.Convert.{Externals}
use pocket_settlement_monito.Processor.Filter.{SupplierFilter}
use pocket_settlement_monito.Processor.Correlate.{correlate_overservice}
use pocket_settlement_monito.Processor.Reporter.{KnownServices, report_block}
use pocket_settlement_monito.Processor.Batch.{Batch, empty_batch, filtered, convert_events}

pub record Notification : Type 0 where
  pub height : Int64
  pub settlements : List Settlement
  pub overservices : List OverserviceEvent
  pub reimbursements : List ReimbursementEvent

pub record World : Type 0 where
  pub db : Db
  pub known_services : KnownServices
  pub metrics : Registry
  pub notified : List Notification

module _ (lc : LabelConfig) (height : Int64) (is_live : Bool) where
  -- `if s.SessionEndBlockHeight > 0`
  abbrev pub dispatch_latency : String → Settlement → Registry → Registry
  dispatch_latency event_type s m =
      if slt 0 s.session_end_block_height
      then observe_latency event_type (sub64 height s.session_end_block_height) is_live m
      else m

  unfoldable pub dispatch_settled : Settlement → Registry → Registry
  dispatch_settled s m =
      let supplier : String = s.supplier_operator_address in
      let service : String = s.service_id in
      let app : String = s.application_address in
      let relays = record_relays lc "settled" supplier service app is_live in
      let m₁ = record_claim_settled lc "settled" supplier service app is_live m in
      let m₂ =
        record_revenue lc "settled" supplier service app is_live upokt_earned s.claimed_upokt m₁ in
      let m₃ = relays relays_settled s.num_relays m₂ in
      let m₄ = relays estimated_relays_settled s.estimated_relays m₃ in
      let m₅ = relays compute_units_settled s.num_claimed_compute_units m₄ in
      let m₆ = relays estimated_compute_units_settled s.num_estimated_compute_units m₅ in
      dispatch_latency "settled" s m₆

  unfoldable pub dispatch_expired : Settlement → Registry → Registry
  dispatch_expired s m =
      let supplier : String = s.supplier_operator_address in
      let service : String = s.service_id in
      let app : String = s.application_address in
      let relays = record_relays lc "expired" supplier service app is_live in
      let m₁ = record_claim_expired lc "expired" supplier service app is_live m in
      let m₂ =
        record_revenue lc "expired" supplier service app is_live upokt_lost_expired s.claimed_upokt
          m₁ in
      let m₃ = relays relays_expired s.num_relays m₂ in
      let m₄ = relays estimated_relays_expired s.estimated_relays m₃ in
      dispatch_latency "expired" s m₄

  unfoldable pub dispatch_slashed : Settlement → Registry → Registry
  dispatch_slashed s m =
      let supplier : String = s.supplier_operator_address in
      let service : String = s.service_id in
      let app : String = s.application_address in
      record_revenue lc "slashed" supplier service app is_live upokt_claimed s.slash_penalty_upokt
        (record_supplier_slashed lc "slashed" supplier service app is_live m)

  abbrev pub dispatch_typed : EventType → Settlement → Registry → Registry
  dispatch_typed settled s m = dispatch_settled s m
  dispatch_typed expired s m = dispatch_expired s m
  dispatch_typed slashed s m = dispatch_slashed s m
  dispatch_typed discarded s m =
      record_claim_discarded lc "discarded" s.supplier_operator_address s.service_id
        s.application_address is_live m

  unfoldable pub dispatch_settlement : Registry → Settlement → Registry
  dispatch_settlement m s = dispatch_typed s.event_type s m

  unfoldable pub dispatch_overservice : Registry → OverserviceEvent → Registry
  dispatch_overservice m o =
      let m' =
        record_application_overserviced lc "overserviced" o.supplier_operator_address ""
          o.application_address is_live m in
      let amount = sub64 o.expected_burn_upokt o.effective_burn_upokt in
      if slt 0 amount then record_overservice_amount amount is_live m' else m'

  unfoldable pub dispatch_metrics : List Settlement → List OverserviceEvent → Registry → Registry
  unfolding dispatch_settlement dispatch_overservice dispatch_settled dispatch_expired
      dispatch_slashed
  dispatch_metrics ss os m =
      fold dispatch_overservice (fold dispatch_settlement (set_last_processed_height height m) ss)
        os

abbrev source_of : Bool → Source
source_of is_live = if is_live then live else backfill

module _ (x : Externals) (lc : LabelConfig) (f : SupplierFilter) where
  -- Steps 1 to 4: the rows, the correlated settlements among them, and the block's own record.
  unfoldable pub block_rows : Int64 → Time → List SettlementEvent → Batch
  block_rows height ts events =
      let b = convert_events x height ts empty_batch (filtered f events) in
      record b { settlements = (correlate_overservice events b.settlements).0 }

  abbrev pub block_record : Int64 → Time → List SettlementEvent → Bool → ProcessedBlock
  block_record height ts events is_live = record {
    height = height;
    block_timestamp = ts;
    event_count = length (filtered f events);
    source = source_of is_live;
  }

  abbrev pub insert : ProcessedBlock → Batch → Exec World Unit
  insert block b w =
      let (r, db) =
        insert_block_events block b.settlements b.rewards b.overservices b.reimbursements w.db in
      (r, record w { db = db })

  -- The reporter's error is logged.
  abbrev pub report : Time → Batch → World → World
  report ts b w =
      let (r, (db, known)) =
        report_block ts b.settlements b.overservices b.reimbursements (w.db, w.known_services) in
      record w { db = db; known_services = known }

  abbrev pub notification_of : Int64 → Batch → Notification
  notification_of height b = record {
    height = height;
    settlements = b.settlements;
    overservices = b.overservices;
    reimbursements = b.reimbursements;
  }

  abbrev pub notify : Int64 → Bool → Batch → World → World
  notify height is_live b w = record w {
    notified = if is_live then w.notified ++ notification_of height b ∷ [] else w.notified;
  }

  abbrev pub dispatch : Int64 → Bool → Batch → World → World
  dispatch height is_live b w = record w {
    metrics = dispatch_metrics lc height is_live b.settlements b.overservices w.metrics;
  }

  -- Steps 5 to 8.
  unfoldable pub process_block : Int64 → Time → List SettlementEvent → Bool → Exec World Unit
  process_block height ts events is_live =
      let b = block_rows height ts events in
      insert (block_record height ts events is_live) b >> λ w.
      (ok tt, notify height is_live b (report ts b (dispatch height is_live b w)))

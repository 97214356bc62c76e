-- ===== src/Metrics.antt =====
-- metrics/labels.go and the recording methods of metrics/metrics.go. A registry is the list of updates
-- that were made, the latest last; amounts are the integers that the callers turn into float64.
use pocket_settlement_monito.Prelude.{ℕ, String, Bool, List, [], ◌∷◌, ◌++◌, if◌then◌else◌}
use pocket_settlement_monito.Prelude.Words.{Int64}

pub record LabelConfig : Type 0 where
  pub include_supplier : Bool
  pub include_service : Bool
  pub include_application : Bool

pub record Labels : Type 0 where
  pub event_type : String
  pub supplier : String
  pub service : String
  pub application : String

-- SupplierLabel, ServiceLabel and ApplicationLabel, and the map of all four.
unfoldable pub labels : LabelConfig → String → String → String → String → Labels
labels lc event_type supplier service application = record {
  event_type = event_type;
  supplier = if lc.include_supplier then supplier else "";
  service = if lc.include_service then service else "";
  application = if lc.include_application then application else "";
}

-- The counter vectors with all four labels.
pub data Counter : Type 0 where
  claims_settled claims_expired suppliers_slashed claims_discarded applications_overserviced :
      Counter
  upokt_earned upokt_lost_expired upokt_claimed : Counter
  relays_settled relays_expired estimated_relays_settled estimated_relays_expired : Counter
  compute_units_settled estimated_compute_units_settled : Counter

pub data Update : Type 0 where
  inc : Counter → Labels → Update
  add_amount : Counter → Labels → Int64 → Update
  add_upokt_overserviced : Int64 → Update
  observe_latency_blocks : String → Int64 → Update
  last_processed_height : Int64 → Update
  current_block_height : Int64 → Update
  backfill_blocks_remaining : Int64 → Update
  websocket_connected : Bool → Update
  websocket_reconnects : Update
  suppliers_monitored : ℕ → Update
  info_labels : String → String → Update
  blocks_processed : Update
  gap_detected : Update
  discord_notifications_sent : String → Update
  discord_notification_errors : String → Update
  sqlite_operations : String → String → Update
  retention_rows_deleted : String → Int64 → Update

abbrev pub Registry : Type 0
Registry = List Update

-- Counters are written for live events only.
unfoldable pub when_live : Bool → Update → Registry → Registry
when_live is_live u m = if is_live then m ++ u ∷ [] else m

module _ (lc : LabelConfig) (event_type supplier service application : String)
    (is_live : Bool) where
  abbrev all_labels : Labels
  all_labels = labels lc event_type supplier service application

  abbrev pub record_claim_settled : Registry → Registry
  record_claim_settled = when_live is_live (inc claims_settled all_labels)

  abbrev pub record_claim_expired : Registry → Registry
  record_claim_expired = when_live is_live (inc claims_expired all_labels)

  abbrev pub record_supplier_slashed : Registry → Registry
  record_supplier_slashed = when_live is_live (inc suppliers_slashed all_labels)

  abbrev pub record_claim_discarded : Registry → Registry
  record_claim_discarded = when_live is_live (inc claims_discarded all_labels)

  abbrev pub record_application_overserviced : Registry → Registry
  record_application_overserviced = when_live is_live (inc applications_overserviced all_labels)

  abbrev pub record_revenue : Counter → Int64 → Registry → Registry
  record_revenue counter amount = when_live is_live (add_amount counter all_labels amount)

  abbrev pub record_relays : Counter → Int64 → Registry → Registry
  record_relays counter count = when_live is_live (add_amount counter all_labels count)

abbrev pub record_overservice_amount : Int64 → Bool → Registry → Registry
record_overservice_amount amount is_live = when_live is_live (add_upokt_overserviced amount)

abbrev pub observe_latency : String → Int64 → Bool → Registry → Registry
observe_latency event_type blocks is_live =
    when_live is_live (observe_latency_blocks event_type blocks)

-- The gauges, written for every block.
abbrev pub set_last_processed_height : Int64 → Registry → Registry
set_last_processed_height height m = m ++ last_processed_height height ∷ []

abbrev pub set_block_height : Int64 → Registry → Registry
set_block_height height m = m ++ current_block_height height ∷ []

abbrev pub set_backfill_blocks_remaining : Int64 → Registry → Registry
set_backfill_blocks_remaining remaining m = m ++ backfill_blocks_remaining remaining ∷ []

abbrev pub set_websocket_connected : Bool → Registry → Registry
set_websocket_connected connected m = m ++ websocket_connected connected ∷ []

abbrev pub set_suppliers_monitored : ℕ → Registry → Registry
set_suppliers_monitored count m = m ++ suppliers_monitored count ∷ []

abbrev pub set_info : String → String → Registry → Registry
set_info version commit m = m ++ info_labels version commit ∷ []

abbrev pub increment_blocks_processed : Bool → Registry → Registry
increment_blocks_processed is_live = when_live is_live blocks_processed

abbrev pub increment_gap_detected : Bool → Registry → Registry
increment_gap_detected is_live = when_live is_live gap_detected

abbrev pub record_discord_notification : String → Bool → Registry → Registry
record_discord_notification kind is_live = when_live is_live (discord_notifications_sent kind)

abbrev pub record_discord_notification_error : String → Bool → Registry → Registry
record_discord_notification_error kind is_live =
    when_live is_live (discord_notification_errors kind)

abbrev pub record_sqlite_operation : String → String → Bool → Registry → Registry
record_sqlite_operation operation status is_live =
    when_live is_live (sqlite_operations operation status)

abbrev pub record_retention_rows_deleted : String → Int64 → Bool → Registry → Registry
record_retention_rows_deleted table count is_live =
    when_live is_live (retention_rows_deleted table count)

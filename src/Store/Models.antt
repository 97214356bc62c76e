-- ===== src/Store/Models.antt =====
-- store/models.go: the rows of the database. An `int64` is its bit pattern, a `float64` too; a time is
-- the nanoseconds since Go's zero time (1 January of year 1, UTC).
use pocket_settlement_monito.Prelude.{ℕ, ◌/◌, ◌*◌, String, ◌≡◌, ◌↔◌, Bool, true, false, arith}
use pocket_settlement_monito.Prelude.Eq.{Eq}
use pocket_settlement_monito.Prelude.Words.{Int64}

abbrev pub Time : Type 0
Time = ℕ

abbrev pub Float64 : Type 0
Float64 = ℕ

abbrev pub nanos_per_second : ℕ
nanos_per_second = 1000000000

-- `t.Format(time.RFC3339)` drops what is below a second. On UTC times of the years 0 to 9999 the
-- texts have one width and their order is that of the times, so a text is its number of seconds.
abbrev pub rfc3339 : Time → ℕ
rfc3339 t = t / nanos_per_second

-- The time that `time.Parse(time.RFC3339, s)` gives back for such a text.
abbrev pub parse_rfc3339 : ℕ → Time
parse_rfc3339 s = s * nanos_per_second

-- The four texts that the code writes in `event_type`, and that the table's CHECK admits.
pub data EventType : Type 0 where
  settled expired slashed discarded : EventType

abbrev event_type_beq : EventType → EventType → Bool
event_type_beq settled settled = true
event_type_beq expired expired = true
event_type_beq slashed slashed = true
event_type_beq discarded discarded = true
event_type_beq _ _ = false

pub event_type_beq_iff : (a b : EventType) → (event_type_beq a b ≡ true) ↔ (a ≡ b)
event_type_beq_iff a b = ground arith

instance abbrev pub event_type_eq : Eq EventType
event_type_eq = record { beq = event_type_beq; beq_iff = event_type_beq_iff }

pub record Settlement : Type 0 where
  pub id : Int64
  pub block_height : Int64
  pub block_timestamp : Time
  pub event_type : EventType
  pub supplier_operator_address : String
  pub application_address : String
  pub service_id : String
  pub session_end_block_height : Int64
  pub claim_proof_status : ℕ
  pub claimed_upokt : Int64
  pub num_relays : Int64
  pub num_claimed_compute_units : Int64
  pub num_estimated_compute_units : Int64
  pub proof_requirement : ℕ
  pub estimated_relays : Int64
  pub difficulty_multiplier : Float64
  pub is_overserviced : Bool
  pub effective_burn_upokt : Int64
  pub overservice_diff_upokt : Int64
  pub expiration_reason : String
  pub error_message : String
  pub slash_penalty_upokt : Int64

pub record RewardDistribution : Type 0 where
  pub id : Int64
  pub settlement_id : Int64
  pub address : String
  pub amount_upokt : Int64

pub record OverserviceEvent : Type 0 where
  pub id : Int64
  pub block_height : Int64
  pub block_timestamp : Time
  pub application_address : String
  pub supplier_operator_address : String
  pub expected_burn_upokt : Int64
  pub effective_burn_upokt : Int64

pub record ReimbursementEvent : Type 0 where
  pub id : Int64
  pub block_height : Int64
  pub block_timestamp : Time
  pub application_address : String
  pub supplier_operator_address : String
  pub supplier_owner_address : String
  pub service_id : String
  pub session_id : String
  pub amount_upokt : Int64

-- "live" or "backfill", the two texts that `processed_blocks.source` admits.
pub data Source : Type 0 where
  live backfill : Source

pub record ProcessedBlock : Type 0 where
  pub height : Int64
  pub block_timestamp : Time
  pub event_count : ℕ
  pub source : Source

-- What the four summary structs hold beside their keys.
pub record Totals : Type 0 where
  pub claims_settled : Int64
  pub claims_expired : Int64
  pub claims_slashed : Int64
  pub claims_discarded : Int64
  pub claimed_total_upokt : Int64
  pub effective_total_upokt : Int64
  pub num_relays : Int64
  pub estimated_relays : Int64
  pub num_compute_units : Int64
  pub estimated_compute_units : Int64
  pub overservice_count : Int64
  pub reimbursement_total_upokt : Int64
  pub active_supplier_count : Int64

abbrev pub zero_totals : Totals
zero_totals = record {
  claims_settled = 0;
  claims_expired = 0;
  claims_slashed = 0;
  claims_discarded = 0;
  claimed_total_upokt = 0;
  effective_total_upokt = 0;
  num_relays = 0;
  estimated_relays = 0;
  num_compute_units = 0;
  estimated_compute_units = 0;
  overservice_count = 0;
  reimbursement_total_upokt = 0;
  active_supplier_count = 0;
}

-- A summary struct is its key and its totals. The row's `id` is never used, and is left out.
pub record SummaryRow (K : Type 0) : Type 0 where
  pub key : K
  pub totals : Totals

-- `hour_start` or `day_date`, with the service for the per-service tables.
abbrev pub HourlySummaryService : Type 0
HourlySummaryService = SummaryRow (ℕ × String)

abbrev pub HourlySummaryNetwork : Type 0
HourlySummaryNetwork = SummaryRow ℕ

abbrev pub DailySummaryService : Type 0
DailySummaryService = SummaryRow (ℕ × String)

abbrev pub DailySummaryNetwork : Type 0
DailySummaryNetwork = SummaryRow ℕ

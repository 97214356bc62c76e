-- ===== src/Subscriber/Types.antt =====
-- subscriber/types.go, and of the six messages of poktroll's x/tokenomics/types the fields that the
-- code reads. Coin amounts are texts that the code takes apart: lists of bytes. Addresses and other
-- texts are only compared.
use pocket_settlement_monito.Prelude.{ℕ, String, List}
use pocket_settlement_monito.Prelude.Words.{Int64}
use pocket_settlement_monito.Store.Models.{Time}

abbrev pub Bytes : Type 0
Bytes = List ℕ

-- A `uint64`.
abbrev pub Uint64 : Type 0
Uint64 = ℕ

pub record EventClaimSettled : Type 0 where
  pub supplier_operator_address : String
  pub application_address : String
  pub service_id : String
  pub session_end_block_height : Int64
  pub claim_proof_status_int : ℕ
  pub claimed_upokt : Bytes
  pub num_relays : Uint64
  pub num_claimed_compute_units : Uint64
  pub num_estimated_compute_units : Uint64
  pub proof_requirement_int : ℕ
  pub reward_distribution : List (String × Bytes)

pub record EventClaimExpired : Type 0 where
  pub supplier_operator_address : String
  pub application_address : String
  pub service_id : String
  pub session_end_block_height : Int64
  pub claim_proof_status_int : ℕ
  pub claimed_upokt : Bytes
  pub num_relays : Uint64
  pub num_claimed_compute_units : Uint64
  pub num_estimated_compute_units : Uint64
  pub expiration_reason : ℕ

pub record EventSupplierSlashed : Type 0 where
  pub supplier_operator_address : String
  pub application_address : String
  pub service_id : String
  pub session_end_block_height : Int64
  pub claim_proof_status_int : ℕ
  pub proof_missing_penalty : Bytes

pub record EventClaimDiscarded : Type 0 where
  pub supplier_operator_address : String
  pub application_address : String
  pub service_id : String
  pub session_end_block_height : Int64
  pub claim_proof_status_int : ℕ
  pub error : String

pub record EventApplicationOverserviced : Type 0 where
  pub application_addr : String
  pub supplier_operator_addr : String
  pub expected_burn : Bytes
  pub effective_burn : Bytes

pub record EventApplicationReimbursementRequest : Type 0 where
  pub application_addr : String
  pub supplier_operator_addr : String
  pub supplier_owner_addr : String
  pub service_id : String
  pub session_id : String
  pub amount : Bytes

-- A decoded message; `other` is any message of another type.
pub data Message : Type 0 where
  claim_settled : EventClaimSettled → Message
  claim_expired : EventClaimExpired → Message
  supplier_slashed : EventSupplierSlashed → Message
  claim_discarded : EventClaimDiscarded → Message
  overserviced : EventApplicationOverserviced → Message
  reimbursement_request : EventApplicationReimbursementRequest → Message
  other : Message

pub record SettlementEvent : Type 0 where
  pub height : Int64
  pub event_type : String
  pub event : Message

pub record BlockEvents : Type 0 where
  pub height : Int64
  pub timestamp : Time
  pub events : List SettlementEvent

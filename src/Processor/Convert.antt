-- ===== src/Processor/Convert.antt =====
-- processor/converter.go: from messages to rows. What is not in the repository is an argument: Go's
-- arithmetic on float64, and the name of an expiration reason in poktroll's enum.
use pocket_settlement_monito.Prelude.{
  ℕ, ◌≡◌, ◌≢◌, String, false, List, map, ◌==◌, if◌then◌else◌, arith,
}
use pocket_settlement_monito.Prelude.Words.{Int64}
use pocket_settlement_monito.Store.Models.{
  Time, Float64, settled, expired, slashed, discarded, Settlement, RewardDistribution,
  OverserviceEvent, ReimbursementEvent,
}
use pocket_settlement_monito.Subscriber.Types.{
  Bytes, Uint64, EventClaimSettled, EventClaimExpired, EventSupplierSlashed, EventClaimDiscarded,
  EventApplicationOverserviced, EventApplicationReimbursementRequest,
}
use pocket_settlement_monito.Processor.Coins.{parse_coin_amount}

-- `float64(n)`, `x / y`, `x * y`, `int64(x)`, the constant 1.0, and `ExpirationReason.String()`.
pub record Externals : Type 0 where
  pub float_of : Uint64 → Float64
  pub float_div : Float64 → Float64 → Float64
  pub float_mul : Float64 → Float64 → Float64
  pub int64_of : Float64 → Int64
  pub float_one : Float64
  pub float_zero : Float64
  pub reason_name : ℕ → String

-- A row before its fields are set: Go's zero value.
abbrev pub zero_settlement : Externals → Settlement
zero_settlement x = record {
  id = 0;
  block_height = 0;
  block_timestamp = 0;
  event_type = settled;
  supplier_operator_address = "";
  application_address = "";
  service_id = "";
  session_end_block_height = 0;
  claim_proof_status = 0;
  claimed_upokt = 0;
  num_relays = 0;
  num_claimed_compute_units = 0;
  num_estimated_compute_units = 0;
  proof_requirement = 0;
  estimated_relays = 0;
  difficulty_multiplier = x.float_zero;
  is_overserviced = false;
  effective_burn_upokt = 0;
  overservice_diff_upokt = 0;
  expiration_reason = "";
  error_message = "";
  slash_penalty_upokt = 0;
}

module _ (x : Externals) where
  -- The multiplier and the estimated relays.
  pub compute_difficulty : Uint64 → Uint64 → Uint64 → Float64 × Int64
  compute_difficulty num_relays num_claimed_cu num_estimated_cu =
      if num_claimed_cu == 0 then (x.float_one, num_relays) else (
        x.float_div (x.float_of num_estimated_cu) (x.float_of num_claimed_cu),
        x.int64_of (
            x.float_mul (x.float_of num_relays)
              (x.float_div (x.float_of num_estimated_cu) (x.float_of num_claimed_cu))),
      )

  unfoldable pub convert_settled_event : EventClaimSettled → Int64 → Time → Settlement
  convert_settled_event event height ts =
      let (multiplier, estimated_relays) =
        compute_difficulty event.num_relays event.num_claimed_compute_units
          event.num_estimated_compute_units in
      record (zero_settlement x) {
        block_height = height;
        block_timestamp = ts;
        event_type = settled;
        supplier_operator_address = event.supplier_operator_address;
        application_address = event.application_address;
        service_id = event.service_id;
        session_end_block_height = event.session_end_block_height;
        claim_proof_status = event.claim_proof_status_int;
        claimed_upokt = parse_coin_amount event.claimed_upokt;
        num_relays = event.num_relays;
        num_claimed_compute_units = event.num_claimed_compute_units;
        num_estimated_compute_units = event.num_estimated_compute_units;
        proof_requirement = event.proof_requirement_int;
        estimated_relays = estimated_relays;
        difficulty_multiplier = multiplier;
      }

  -- The order in which Go walks the map is that of the list.
  unfoldable pub convert_settled_event_with_rewards :
      EventClaimSettled → Int64 → Time → Settlement × List RewardDistribution
  convert_settled_event_with_rewards event height ts =
      (convert_settled_event event height ts, map reward event.reward_distribution)
    where
      reward : String × Bytes → RewardDistribution
      reward (addr, amount) = record {
        id = 0;
        settlement_id = 0;
        address = addr;
        amount_upokt = parse_coin_amount amount;
      }

  unfoldable pub convert_expired_event : EventClaimExpired → Int64 → Time → Settlement
  convert_expired_event event height ts =
      let (multiplier, estimated_relays) =
        compute_difficulty event.num_relays event.num_claimed_compute_units
          event.num_estimated_compute_units in
      record (zero_settlement x) {
        block_height = height;
        block_timestamp = ts;
        event_type = expired;
        supplier_operator_address = event.supplier_operator_address;
        application_address = event.application_address;
        service_id = event.service_id;
        session_end_block_height = event.session_end_block_height;
        claim_proof_status = event.claim_proof_status_int;
        claimed_upokt = parse_coin_amount event.claimed_upokt;
        num_relays = event.num_relays;
        num_claimed_compute_units = event.num_claimed_compute_units;
        num_estimated_compute_units = event.num_estimated_compute_units;
        expiration_reason = x.reason_name event.expiration_reason;
        estimated_relays = estimated_relays;
        difficulty_multiplier = multiplier;
      }

  unfoldable pub convert_slashed_event : EventSupplierSlashed → Int64 → Time → Settlement
  convert_slashed_event event height ts = record (zero_settlement x) {
    block_height = height;
    block_timestamp = ts;
    event_type = slashed;
    supplier_operator_address = event.supplier_operator_address;
    application_address = event.application_address;
    service_id = event.service_id;
    session_end_block_height = event.session_end_block_height;
    claim_proof_status = event.claim_proof_status_int;
    slash_penalty_upokt = parse_coin_amount event.proof_missing_penalty;
  }

  unfoldable pub convert_discarded_event : EventClaimDiscarded → Int64 → Time → Settlement
  convert_discarded_event event height ts = record (zero_settlement x) {
    block_height = height;
    block_timestamp = ts;
    event_type = discarded;
    supplier_operator_address = event.supplier_operator_address;
    application_address = event.application_address;
    service_id = event.service_id;
    session_end_block_height = event.session_end_block_height;
    claim_proof_status = event.claim_proof_status_int;
    error_message = event.error;
  }

  -- The multiplier is 1.0 and the estimate is the number of relays where no compute units were
  -- claimed, and also where the claimed units are the estimated ones, given what float64 does to
  -- whole numbers that it holds exactly.
  pub compute_difficulty_base :
      (num_relays claimed estimated : Uint64)
      → (claimed ≢ 0 → estimated ≡ claimed)
      → ((n : Uint64) → n ≢ 0 → x.float_div (x.float_of n) (x.float_of n) ≡ x.float_one)
      → ((y : Float64) → x.float_mul y x.float_one ≡ y)
      → x.int64_of (x.float_of num_relays) ≡ num_relays
      → compute_difficulty num_relays claimed estimated ≡ (x.float_one, num_relays)
  unfolding compute_difficulty
  compute_difficulty_base num_relays claimed estimated same div mul exact =
      ground (arith, div claimed, mul (x.float_of num_relays))

unfoldable pub convert_overservice_event :
    EventApplicationOverserviced → Int64 → Time → OverserviceEvent
convert_overservice_event event height ts = record {
  id = 0;
  block_height = height;
  block_timestamp = ts;
  application_address = event.application_addr;
  supplier_operator_address = event.supplier_operator_addr;
  expected_burn_upokt = parse_coin_amount event.expected_burn;
  effective_burn_upokt = parse_coin_amount event.effective_burn;
}

unfoldable pub convert_reimbursement_event :
    EventApplicationReimbursementRequest → Int64 → Time → ReimbursementEvent
convert_reimbursement_event event height ts = record {
  id = 0;
  block_height = height;
  block_timestamp = ts;
  application_address = event.application_addr;
  supplier_operator_address = event.supplier_operator_addr;
  supplier_owner_address = event.supplier_owner_addr;
  service_id = event.service_id;
  session_id = event.session_id;
  amount_upokt = parse_coin_amount event.amount;
}

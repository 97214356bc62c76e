-- ===== src/Processor/Aggregate.antt =====
-- processor/reporter.go: what one block's events contribute to the summaries.
pub mod Additive
pub mod Order
pub mod Given
use pocket_settlement_monito.Prelude.{
  ℕ, ◌%◌, ◌≡◌, refl, sym, ap, ◌∙◌, Bool, true, false, List, [], ◌∷◌, ◌++◌, fold, fold-append,
  length, length-append, if◌then◌else◌, arith, ◌<◌,
}
use pocket_settlement_monito.Prelude.Words.{Int64, add64, two64}
use pocket_settlement_monito.Store.Models.{
  EventType, settled, expired, slashed, discarded, Settlement, OverserviceEvent, ReimbursementEvent,
  Totals,
}

pub record BlockContribution : Type 0 where
  pub claims_settled : Int64
  pub claims_expired : Int64
  pub claims_slashed : Int64
  pub claims_discarded : Int64
  pub claimed_upokt : Int64
  pub effective_upokt : Int64
  pub num_relays : Int64
  pub estimated_relays : Int64
  pub num_compute_units : Int64
  pub estimated_compute_units : Int64
  pub overservice_count : Int64
  pub reimbursement_upokt : Int64

abbrev pub nothing : BlockContribution
nothing = record {
  claims_settled = 0;
  claims_expired = 0;
  claims_slashed = 0;
  claims_discarded = 0;
  claimed_upokt = 0;
  effective_upokt = 0;
  num_relays = 0;
  estimated_relays = 0;
  num_compute_units = 0;
  estimated_compute_units = 0;
  overservice_count = 0;
  reimbursement_upokt = 0;
}

-- What was paid for a settled claim.
abbrev effective_of : Settlement → Int64
effective_of s = if s.is_overserviced then s.effective_burn_upokt else s.claimed_upokt

-- The `switch` on the event type.
add_typed : EventType → Settlement → BlockContribution → BlockContribution
add_typed settled s bc = record bc {
  claims_settled = add64 bc.claims_settled 1;
  claimed_upokt = add64 bc.claimed_upokt s.claimed_upokt;
  effective_upokt = add64 bc.effective_upokt (effective_of s);
  num_relays = add64 bc.num_relays s.num_relays;
  estimated_relays = add64 bc.estimated_relays s.estimated_relays;
  num_compute_units = add64 bc.num_compute_units s.num_claimed_compute_units;
  estimated_compute_units = add64 bc.estimated_compute_units s.num_estimated_compute_units;
}
add_typed expired s bc = record bc {
  claims_expired = add64 bc.claims_expired 1;
  claimed_upokt = add64 bc.claimed_upokt s.claimed_upokt;
  effective_upokt = add64 bc.effective_upokt s.claimed_upokt;
  num_relays = add64 bc.num_relays s.num_relays;
  estimated_relays = add64 bc.estimated_relays s.estimated_relays;
  num_compute_units = add64 bc.num_compute_units s.num_claimed_compute_units;
  estimated_compute_units = add64 bc.estimated_compute_units s.num_estimated_compute_units;
}
add_typed slashed s bc = record bc { claims_slashed = add64 bc.claims_slashed 1 }
add_typed discarded s bc = record bc { claims_discarded = add64 bc.claims_discarded 1 }

add_settlement : BlockContribution → Settlement → BlockContribution
unfolding add_typed
add_settlement bc s = add_typed s.event_type s bc

add_reimbursement : BlockContribution → ReimbursementEvent → BlockContribution
add_reimbursement bc r = record bc {
  reimbursement_upokt = add64 bc.reimbursement_upokt r.amount_upokt;
}

pub aggregate_block :
    List Settlement → List OverserviceEvent → List ReimbursementEvent → BlockContribution
unfolding add_settlement add_reimbursement
aggregate_block settlements overservices reimbursements =
    let bc = fold add_settlement nothing settlements in
    fold add_reimbursement (record bc { overservice_count = length overservices % two64 })
      reimbursements

-- Field by field.
pub plus : BlockContribution → BlockContribution → BlockContribution
plus a b = record {
  claims_settled = add64 a.claims_settled b.claims_settled;
  claims_expired = add64 a.claims_expired b.claims_expired;
  claims_slashed = add64 a.claims_slashed b.claims_slashed;
  claims_discarded = add64 a.claims_discarded b.claims_discarded;
  claimed_upokt = add64 a.claimed_upokt b.claimed_upokt;
  effective_upokt = add64 a.effective_upokt b.effective_upokt;
  num_relays = add64 a.num_relays b.num_relays;
  estimated_relays = add64 a.estimated_relays b.estimated_relays;
  num_compute_units = add64 a.num_compute_units b.num_compute_units;
  estimated_compute_units = add64 a.estimated_compute_units b.estimated_compute_units;
  overservice_count = add64 a.overservice_count b.overservice_count;
  reimbursement_upokt = add64 a.reimbursement_upokt b.reimbursement_upokt;
}

-- A summary row's new totals: those that it had, with the block's, and the suppliers counted anew.
pub accumulate : Totals → BlockContribution → Int64 → Totals
accumulate current bc suppliers = record {
  claims_settled = add64 current.claims_settled bc.claims_settled;
  claims_expired = add64 current.claims_expired bc.claims_expired;
  claims_slashed = add64 current.claims_slashed bc.claims_slashed;
  claims_discarded = add64 current.claims_discarded bc.claims_discarded;
  claimed_total_upokt = add64 current.claimed_total_upokt bc.claimed_upokt;
  effective_total_upokt = add64 current.effective_total_upokt bc.effective_upokt;
  num_relays = add64 current.num_relays bc.num_relays;
  estimated_relays = add64 current.estimated_relays bc.estimated_relays;
  num_compute_units = add64 current.num_compute_units bc.num_compute_units;
  estimated_compute_units = add64 current.estimated_compute_units bc.estimated_compute_units;
  overservice_count = add64 current.overservice_count bc.overservice_count;
  reimbursement_total_upokt = add64 current.reimbursement_total_upokt bc.reimbursement_upokt;
  active_supplier_count = suppliers;
}

-- The totals that a recalculation writes.
pub totals_of : BlockContribution → Int64 → Totals
totals_of bc suppliers = record {
  claims_settled = bc.claims_settled;
  claims_expired = bc.claims_expired;
  claims_slashed = bc.claims_slashed;
  claims_discarded = bc.claims_discarded;
  claimed_total_upokt = bc.claimed_upokt;
  effective_total_upokt = bc.effective_upokt;
  num_relays = bc.num_relays;
  estimated_relays = bc.estimated_relays;
  num_compute_units = bc.num_compute_units;
  estimated_compute_units = bc.estimated_compute_units;
  overservice_count = bc.overservice_count;
  reimbursement_total_upokt = bc.reimbursement_upokt;
  active_supplier_count = suppliers;
}

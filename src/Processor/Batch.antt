-- ===== src/Processor/Batch.antt =====
-- processor/processor.go, steps 1 and 2 of ProcessBlock: the filter, and the rows that a block's
-- messages become. (The sums of BlockSummary are only logged.)
pub mod Rows
use pocket_settlement_monito.Prelude.{String, List, [], ◌∷◌, ◌++◌, length, select, fold}
use pocket_settlement_monito.Prelude.Words.{Int64}
use pocket_settlement_monito.Store.Models.{Time, Settlement, OverserviceEvent, ReimbursementEvent}
use pocket_settlement_monito.Store.Insert.{RewardMap}
use pocket_settlement_monito.Subscriber.Types.{
  Message, claim_settled, claim_expired, supplier_slashed, claim_discarded, overserviced,
  reimbursement_request, other, SettlementEvent,
}
use pocket_settlement_monito.Processor.Convert.{
  Externals, convert_settled_event_with_rewards, convert_expired_event, convert_slashed_event,
  convert_discarded_event, convert_overservice_event, convert_reimbursement_event,
}
use pocket_settlement_monito.Processor.Filter.{SupplierFilter, matches}

abbrev pub extract_supplier_address : Message → String
extract_supplier_address (claim_settled e) = e.supplier_operator_address
extract_supplier_address (claim_expired e) = e.supplier_operator_address
extract_supplier_address (supplier_slashed e) = e.supplier_operator_address
extract_supplier_address (claim_discarded e) = e.supplier_operator_address
extract_supplier_address (overserviced e) = e.supplier_operator_addr
extract_supplier_address (reimbursement_request e) = e.supplier_operator_addr
extract_supplier_address other = ""

abbrev pub filtered : SupplierFilter → List SettlementEvent → List SettlementEvent
filtered f events = select (λ e. matches f (extract_supplier_address e.event)) events

-- The four slices and maps of the loop.
pub record Batch : Type 0 where
  pub settlements : List Settlement
  pub rewards : RewardMap
  pub overservices : List OverserviceEvent
  pub reimbursements : List ReimbursementEvent

abbrev pub empty_batch : Batch
empty_batch = record { settlements = []; rewards = []; overservices = []; reimbursements = [] }

abbrev pub add_settlement : Settlement → Batch → Batch
add_settlement s b = record b { settlements = b.settlements ++ s ∷ [] }

module _ (x : Externals) (height : Int64) (ts : Time) where
  -- The type switch. The rewards go under the index that their settlement is about to take.
  unfoldable pub convert_message : Batch → Message → Batch
  convert_message b (claim_settled e) =
      let (settlement, rewards) = convert_settled_event_with_rewards x e height ts in
      record b {
        rewards = b.rewards ++ (length b.settlements, rewards) ∷ [];
        settlements = b.settlements ++ settlement ∷ [];
      }
  convert_message b (claim_expired e) = add_settlement (convert_expired_event x e height ts) b
  convert_message b (supplier_slashed e) = add_settlement (convert_slashed_event x e height ts) b
  convert_message b (claim_discarded e) = add_settlement (convert_discarded_event x e height ts) b
  convert_message b (overserviced e) = record b {
    overservices = b.overservices ++ convert_overservice_event e height ts ∷ [];
  }
  convert_message b (reimbursement_request e) = record b {
    reimbursements = b.reimbursements ++ convert_reimbursement_event e height ts ∷ [];
  }
  convert_message b other = b

  unfoldable pub convert_events : Batch → List SettlementEvent → Batch
  convert_events b events = fold (λ b e. convert_message b e.event) b events

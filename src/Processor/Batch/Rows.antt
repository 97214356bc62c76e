-- ===== src/Processor/Batch/Rows.antt =====
-- What becomes of a block's messages.

use mathlib.Core.List.{append-nil, append_assoc}
use pocket_settlement_monito.Prelude.{
  ◌≡◌, refl, sym, ap, ◌∙◌, String, map, ◌++◌, true, List, [], ◌∷◌, All, All-append, inl, inr,
  Bool-cases,
}
use pocket_settlement_monito.Prelude.Words.{Int64}
use pocket_settlement_monito.Store.Models.{
  Time, EventType, settled, expired, slashed, discarded, Settlement, OverserviceEvent,
  ReimbursementEvent,
}
use pocket_settlement_monito.Processor.Coins.{parse_coin_amount}
use pocket_settlement_monito.Subscriber.Types.{
  Message, claim_settled, claim_expired, supplier_slashed, claim_discarded, overserviced,
  reimbursement_request, other, SettlementEvent,
}
use pocket_settlement_monito.Processor.Convert.{
  Externals, convert_settled_event_with_rewards, convert_settled_event, convert_expired_event,
  convert_slashed_event, convert_discarded_event, convert_overservice_event,
  convert_reimbursement_event,
}
use pocket_settlement_monito.Processor.Filter.{SupplierFilter, matches}
use pocket_settlement_monito.Processor.Batch.{
  extract_supplier_address, filtered, Batch, empty_batch, convert_message, convert_events,
}

-- What a message says of a claim: the event type of its settlement, who, for which service and session,
-- what was claimed, and the penalty.
pub record Claim : Type 0 where
  pub event_type : EventType
  pub supplier : String
  pub application : String
  pub service : String
  pub session_end : Int64
  pub claimed : Int64
  pub penalty : Int64

abbrev pub claims_of : Message → List Claim
claims_of (claim_settled e) =
    record {
      event_type = settled;
      supplier = e.supplier_operator_address;
      application = e.application_address;
      service = e.service_id;
      session_end = e.session_end_block_height;
      claimed = parse_coin_amount e.claimed_upokt;
      penalty = 0;
    }
    ∷ []
claims_of (claim_expired e) =
    record {
      event_type = expired;
      supplier = e.supplier_operator_address;
      application = e.application_address;
      service = e.service_id;
      session_end = e.session_end_block_height;
      claimed = parse_coin_amount e.claimed_upokt;
      penalty = 0;
    }
    ∷ []
claims_of (supplier_slashed e) =
    record {
      event_type = slashed;
      supplier = e.supplier_operator_address;
      application = e.application_address;
      service = e.service_id;
      session_end = e.session_end_block_height;
      claimed = 0;
      penalty = parse_coin_amount e.proof_missing_penalty;
    }
    ∷ []
claims_of (claim_discarded e) =
    record {
      event_type = discarded;
      supplier = e.supplier_operator_address;
      application = e.application_address;
      service = e.service_id;
      session_end = e.session_end_block_height;
      claimed = 0;
      penalty = 0;
    }
    ∷ []
claims_of _ = []

abbrev pub claim_in : Settlement → Claim
claim_in s = record {
  event_type = s.event_type;
  supplier = s.supplier_operator_address;
  application = s.application_address;
  service = s.service_id;
  session_end = s.session_end_block_height;
  claimed = s.claimed_upokt;
  penalty = s.slash_penalty_upokt;
}

-- The application, the supplier, and the expected and the effective burn.
abbrev pub Burn : Type 0
Burn = String × (String × (Int64 × Int64))

abbrev pub burns_of : Message → List Burn
burns_of (overserviced e) =
    (
      e.application_addr,
      (
        e.supplier_operator_addr,
        (parse_coin_amount e.expected_burn, parse_coin_amount e.effective_burn),
      ),
    )
    ∷ []
burns_of _ = []

abbrev pub burn_in : OverserviceEvent → Burn
burn_in o = (
  o.application_address,
  (o.supplier_operator_address, (o.expected_burn_upokt, o.effective_burn_upokt)),
)

-- The application, the supplier, the session and the amount.
abbrev pub Refund : Type 0
Refund = String × (String × (String × Int64))

abbrev pub refunds_of : Message → List Refund
refunds_of (reimbursement_request e) =
    (e.application_addr, (e.supplier_operator_addr, (e.session_id, parse_coin_amount e.amount)))
    ∷ []
refunds_of _ = []

abbrev pub refund_in : ReimbursementEvent → Refund
refund_in r = (r.application_address, (r.supplier_operator_address, (r.session_id, r.amount_upokt)))

-- What the messages say, one after the other.
abbrev pub said : {A : Type 0} → (Message → List A) → List SettlementEvent → List A
said of [] = []
said of (e ∷ events) = of e.event ++ said of events

map-append : {A B : Type 0} (f : A → B) (xs ys : List A) → map f (xs ++ ys) ≡ map f xs ++ map f ys
map-append f [] ys = refl
map-append f (x ∷ xs) ys = ap (λ l. f x ∷ l) (map-append f xs ys)

-- Every row of the batch is of this block and of a monitored supplier.
pub record IsMonitored (f : SupplierFilter) (height : Int64) (ts : Time) (b : Batch) : Type 0 where
  pub settlements :
      All
        (λ s.
          (matches f s.supplier_operator_address ≡ true)
          × (s.block_height ≡ height)
          × (s.block_timestamp ≡ ts))
        b.settlements
  pub overservices :
      All
        (λ o.
          (matches f o.supplier_operator_address ≡ true)
          × (o.block_height ≡ height)
          × (o.block_timestamp ≡ ts))
        b.overservices
  pub reimbursements :
      All
        (λ r.
          (matches f r.supplier_operator_address ≡ true)
          × (r.block_height ≡ height)
          × (r.block_timestamp ≡ ts))
        b.reimbursements

module _ (x : Externals) (f : SupplierFilter) (height : Int64) (ts : Time) where
  convert_message-claims :
      (b : Batch) (m : Message)
      → map claim_in (convert_message x height ts b m).settlements
        ≡ map claim_in b.settlements ++ claims_of m
  unfolding convert_message convert_settled_event_with_rewards convert_settled_event
      convert_expired_event convert_slashed_event convert_discarded_event convert_overservice_event
      convert_reimbursement_event
  convert_message-claims b (claim_settled e) = map-append claim_in b.settlements _
  convert_message-claims b (claim_expired e) = map-append claim_in b.settlements _
  convert_message-claims b (supplier_slashed e) = map-append claim_in b.settlements _
  convert_message-claims b (claim_discarded e) = map-append claim_in b.settlements _
  convert_message-claims b (overserviced e) = sym (append-nil (map claim_in b.settlements))
  convert_message-claims b (reimbursement_request e) = sym (append-nil (map claim_in b.settlements))
  convert_message-claims b other = sym (append-nil (map claim_in b.settlements))

  convert_message-burns :
      (b : Batch) (m : Message)
      → map burn_in (convert_message x height ts b m).overservices
        ≡ map burn_in b.overservices ++ burns_of m
  unfolding convert_message convert_settled_event_with_rewards convert_settled_event
      convert_expired_event convert_slashed_event convert_discarded_event convert_overservice_event
      convert_reimbursement_event
  convert_message-burns b (claim_settled e) = sym (append-nil (map burn_in b.overservices))
  convert_message-burns b (claim_expired e) = sym (append-nil (map burn_in b.overservices))
  convert_message-burns b (supplier_slashed e) = sym (append-nil (map burn_in b.overservices))
  convert_message-burns b (claim_discarded e) = sym (append-nil (map burn_in b.overservices))
  convert_message-burns b (overserviced e) = map-append burn_in b.overservices _
  convert_message-burns b (reimbursement_request e) = sym (append-nil (map burn_in b.overservices))
  convert_message-burns b other = sym (append-nil (map burn_in b.overservices))

  convert_message-refunds :
      (b : Batch) (m : Message)
      → map refund_in (convert_message x height ts b m).reimbursements
        ≡ map refund_in b.reimbursements ++ refunds_of m
  unfolding convert_message convert_settled_event_with_rewards convert_settled_event
      convert_expired_event convert_slashed_event convert_discarded_event convert_overservice_event
      convert_reimbursement_event
  convert_message-refunds b (claim_settled e) = sym (append-nil (map refund_in b.reimbursements))
  convert_message-refunds b (claim_expired e) = sym (append-nil (map refund_in b.reimbursements))
  convert_message-refunds b (supplier_slashed e) = sym (append-nil (map refund_in b.reimbursements))
  convert_message-refunds b (claim_discarded e) = sym (append-nil (map refund_in b.reimbursements))
  convert_message-refunds b (overserviced e) = sym (append-nil (map refund_in b.reimbursements))
  convert_message-refunds b (reimbursement_request e) = map-append refund_in b.reimbursements _
  convert_message-refunds b other = sym (append-nil (map refund_in b.reimbursements))

  -- A view of the batch to which each message adds what it says.
  convert_events-said :
      {A : Type 0} (view : Batch → List A) (of : Message → List A)
      → ((b : Batch) (m : Message) → view (convert_message x height ts b m) ≡ view b ++ of m)
      → (events : List SettlementEvent) (b : Batch)
      → view (convert_events x height ts b events) ≡ view b ++ said of events
  unfolding convert_events
  convert_events-said view of adds [] b = sym (append-nil (view b))
  convert_events-said view of adds (e ∷ events) b =
      convert_events-said view of adds events (convert_message x height ts b e.event)
      ∙ ap (λ l. l ++ said of events) (adds b e.event)
      ∙ append_assoc (view b) (of e.event) (said of events)

  convert_message-IsMonitored :
      (b : Batch) (m : Message)
      → matches f (extract_supplier_address m) ≡ true
      → IsMonitored f height ts b
      → IsMonitored f height ts (convert_message x height ts b m)
  unfolding convert_message convert_settled_event_with_rewards convert_settled_event
      convert_expired_event convert_slashed_event convert_discarded_event convert_overservice_event
      convert_reimbursement_event
  convert_message-IsMonitored b (claim_settled e) h w = record {
    settlements = All-append _ b.settlements _ w.settlements ((h, refl, refl), tt);
    overservices = w.overservices;
    reimbursements = w.reimbursements;
  }
  convert_message-IsMonitored b (claim_expired e) h w = record {
    settlements = All-append _ b.settlements _ w.settlements ((h, refl, refl), tt);
    overservices = w.overservices;
    reimbursements = w.reimbursements;
  }
  convert_message-IsMonitored b (supplier_slashed e) h w = record {
    settlements = All-append _ b.settlements _ w.settlements ((h, refl, refl), tt);
    overservices = w.overservices;
    reimbursements = w.reimbursements;
  }
  convert_message-IsMonitored b (claim_discarded e) h w = record {
    settlements = All-append _ b.settlements _ w.settlements ((h, refl, refl), tt);
    overservices = w.overservices;
    reimbursements = w.reimbursements;
  }
  convert_message-IsMonitored b (overserviced e) h w = record {
    settlements = w.settlements;
    overservices = All-append _ b.overservices _ w.overservices ((h, refl, refl), tt);
    reimbursements = w.reimbursements;
  }
  convert_message-IsMonitored b (reimbursement_request e) h w = record {
    settlements = w.settlements;
    overservices = w.overservices;
    reimbursements = All-append _ b.reimbursements _ w.reimbursements ((h, refl, refl), tt);
  }
  convert_message-IsMonitored b other h w = w

  filtered-IsMonitored :
      (b : Batch) (events : List SettlementEvent)
      → IsMonitored f height ts b
      → IsMonitored f height ts (convert_events x height ts b (filtered f events))
  unfolding convert_events
  filtered-IsMonitored b [] w = w
  filtered-IsMonitored b (e ∷ events) w =
      elim (Bool-cases (matches f (extract_supplier_address e.event))) [
        | inl hit ↦ rw hit (
            filtered-IsMonitored (convert_message x height ts b e.event) events
              (convert_message-IsMonitored b e.event hit w))
        | inr miss ↦ rw miss (filtered-IsMonitored b events w)
      ]

  -- From the messages that the filter lets through come the block's rows, all of this block and of
  -- monitored suppliers: for each claim, in order, one settlement with the type, the addresses, the service,
  -- the session, the claimed amount and the penalty that its message says, for each message of an overservice
  -- its row with both burns, and for each reimbursement its row with the session and the amount; and no more.
  pub convert_events-IsMonitored :
      (events : List SettlementEvent)
      → let b = convert_events x height ts empty_batch (filtered f events) in
        IsMonitored f height ts b
        × (map claim_in b.settlements ≡ said claims_of (filtered f events))
        × (map burn_in b.overservices ≡ said burns_of (filtered f events))
        × (map refund_in b.reimbursements ≡ said refunds_of (filtered f events))
  convert_events-IsMonitored events = (
    filtered-IsMonitored empty_batch events
        (record { settlements = tt; overservices = tt; reimbursements = tt }),
    convert_events-said (λ b. map claim_in b.settlements) claims_of convert_message-claims
        (filtered f events) empty_batch,
    convert_events-said (λ b. map burn_in b.overservices) burns_of convert_message-burns
        (filtered f events) empty_batch,
    convert_events-said (λ b. map refund_in b.reimbursements) refunds_of convert_message-refunds
        (filtered f events) empty_batch,
  )

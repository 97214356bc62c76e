-- ===== src/Cmd/Cells.antt =====
-- The columns of the query commands of cmd/ and what a row has in them. The layout of time.Format is an
-- argument.
use pocket_settlement_monito.Prelude.{
  String, List, [], ◌∷◌, ◌++◌, map, ltb, length, take, if◌then◌else◌,
}
use pocket_settlement_monito.Prelude.Eq.{◌=?◌, string_eq}
use pocket_settlement_monito.Prelude.Words.{sub64}
use pocket_settlement_monito.Subscriber.Types.{Bytes}
use pocket_settlement_monito.Store.Models.{Time, Settlement, OverserviceEvent, ReimbursementEvent}
use pocket_settlement_monito.Store.Query.{type_text, SummaryResult}
use pocket_settlement_monito.Notify.Format.{print_int}
use pocket_settlement_monito.Notify.Texts.{codes}

abbrev pub trunc_addr : Bytes → Bytes
trunc_addr addr = if ltb 15 (length addr) then take 12 addr ++ codes "..." else addr

-- An address, cut in a table only.
abbrev pub shown : String → String → Bytes
shown output addr = if output =? "table" then trunc_addr (codes addr) else codes addr

abbrev pub settlement_columns : List Bytes
settlement_columns = map codes (
    "HEIGHT" ∷ "TIMESTAMP" ∷ "TYPE" ∷ "SUPPLIER" ∷ "SERVICE" ∷ "APP" ∷ "CLAIMED_UPOKT"
    ∷ "EST_RELAYS" ∷ "OVERSERVICED" ∷ [])

abbrev pub slash_columns : List Bytes
slash_columns = map codes (
    "HEIGHT" ∷ "TIMESTAMP" ∷ "SUPPLIER" ∷ "SERVICE" ∷ "APP" ∷ "PENALTY_UPOKT" ∷ "PROOF_STATUS" ∷ [])

abbrev pub overservice_columns : List Bytes
overservice_columns = map codes (
    "HEIGHT" ∷ "TIMESTAMP" ∷ "APPLICATION" ∷ "SUPPLIER" ∷ "EXPECTED_UPOKT" ∷ "EFFECTIVE_UPOKT"
    ∷ "DIFF" ∷ [])

abbrev pub reimbursement_columns : List Bytes
reimbursement_columns = map codes (
    "HEIGHT" ∷ "TIMESTAMP" ∷ "APPLICATION" ∷ "SUPPLIER" ∷ "SERVICE" ∷ "SESSION" ∷ "AMOUNT_UPOKT"
    ∷ [])

abbrev pub summary_columns : List Bytes
summary_columns = map codes (
    "PERIOD" ∷ "SERVICE" ∷ "SETTLED" ∷ "EXPIRED" ∷ "SLASHED" ∷ "DISCARDED" ∷ "CLAIMED_UPOKT"
    ∷ "EFFECTIVE_UPOKT" ∷ "EST_RELAYS" ∷ "OVERSERVICE" ∷ "SUPPLIERS" ∷ [])

module _ (format_time : Time → Bytes) where
  abbrev pub settlement_cells : String → Settlement → List Bytes
  settlement_cells output s =
      print_int s.block_height
      ∷ format_time s.block_timestamp
      ∷ codes (type_text s.event_type)
      ∷ shown output s.supplier_operator_address
      ∷ codes s.service_id
      ∷ shown output s.application_address
      ∷ print_int s.claimed_upokt
      ∷ print_int s.estimated_relays
      ∷ codes (if s.is_overserviced then "yes" else "no")
      ∷ []

  abbrev pub slash_cells : String → Settlement → List Bytes
  slash_cells output s =
      print_int s.block_height
      ∷ format_time s.block_timestamp
      ∷ shown output s.supplier_operator_address
      ∷ codes s.service_id
      ∷ shown output s.application_address
      ∷ print_int s.slash_penalty_upokt
      ∷ print_int s.claim_proof_status
      ∷ []

  abbrev pub overservice_cells : String → OverserviceEvent → List Bytes
  overservice_cells output e =
      print_int e.block_height
      ∷ format_time e.block_timestamp
      ∷ shown output e.application_address
      ∷ shown output e.supplier_operator_address
      ∷ print_int e.expected_burn_upokt
      ∷ print_int e.effective_burn_upokt
      ∷ print_int (sub64 e.expected_burn_upokt e.effective_burn_upokt)
      ∷ []

  abbrev pub reimbursement_cells : String → ReimbursementEvent → List Bytes
  reimbursement_cells output e =
      print_int e.block_height
      ∷ format_time e.block_timestamp
      ∷ shown output e.application_address
      ∷ shown output e.supplier_operator_address
      ∷ codes e.service_id
      ∷ shown output e.session_id
      ∷ print_int e.amount_upokt
      ∷ []

  abbrev pub summary_cells : SummaryResult → List Bytes
  summary_cells (start, (service, totals)) =
      format_time start
      ∷ codes service
      ∷ print_int totals.claims_settled
      ∷ print_int totals.claims_expired
      ∷ print_int totals.claims_slashed
      ∷ print_int totals.claims_discarded
      ∷ print_int totals.claimed_total_upokt
      ∷ print_int totals.effective_total_upokt
      ∷ print_int totals.estimated_relays
      ∷ print_int totals.overservice_count
      ∷ print_int totals.active_supplier_count
      ∷ []

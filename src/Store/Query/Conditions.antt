-- ===== src/Store/Query/Conditions.antt =====
-- The rows that a filter means, column by column, and that its conditions select them.
use pocket_settlement_monito.Prelude.{
  ℕ, ◌≤◌, ◌<◌, String, ◌≡◌, ◌≢◌, refl, Bool-cases, ◌⊎◌, inl, inr, ◌↔◌, Bool, true, false, ◌&&◌,
  arith,
}
use pocket_settlement_monito.Prelude.Eq.{◌=?◌, nat_eq, string_eq}
use pocket_settlement_monito.Prelude.Words.{Int64, slt, sle}
use pocket_settlement_monito.Store.Models.{
  Time, rfc3339, SummaryRow, Settlement, OverserviceEvent, ReimbursementEvent,
}
use pocket_settlement_monito.Store.Query.{
  SettlementFilters, OverserviceFilters, ReimbursementFilters, SummaryFilters, type_text, has_text,
  not_before, before_time, at_least, at_most, wants_settlement, wants_overservice,
  wants_reimbursement,
}

-- A condition that a filter's field puts on a column, or none.
abbrev pub Text : String → String → Type 0
Text wanted column = (wanted ≡ "") ⊎ (column ≡ wanted)

abbrev pub From : Time → ℕ → Type 0
From from column = (from ≡ 0) ⊎ (rfc3339 from ≤ column)

abbrev pub Until : Time → ℕ → Type 0
Until to column = (to ≡ 0) ⊎ (column < rfc3339 to)

abbrev pub AtLeast : Int64 → Int64 → Type 0
AtLeast from column = (slt 0 from ≡ false) ⊎ (sle from column ≡ true)

abbrev pub AtMost : Int64 → Int64 → Type 0
AtMost to column = (slt 0 to ≡ false) ⊎ (sle column to ≡ true)

pub has_text_iff : (w c : String) → (has_text w c ≡ true) ↔ Text w c
has_text_iff w c = ground (arith, string_eq.beq_iff w "", string_eq.beq_iff c w)

pub not_text : (a b : String) → a ≢ b → (a =? b) ≡ false
not_text a b n = elim (Bool-cases (a =? b)) [
  | inl hit ↦ absurd (n ((string_eq.beq_iff a b).0 hit))
  | inr miss ↦ miss
]

pub not_before_iff : (f : Time) (c : ℕ) → (not_before f c ≡ true) ↔ From f c
not_before_iff f c = ground arith

pub before_time_iff : (t : Time) (c : ℕ) → (before_time t c ≡ true) ↔ Until t c
before_time_iff t c = ground arith

pub at_least_iff : (f c : Int64) → (at_least f c ≡ true) ↔ AtLeast f c
at_least_iff f c = ground arith

pub at_most_iff : (t c : Int64) → (at_most t c ≡ true) ↔ AtMost t c
at_most_iff t c = ground arith

pub and_iff :
    {a b : Bool} {A B : Type 0} → (a ≡ true) ↔ A → (b ≡ true) ↔ B → (a && b ≡ true) ↔ (A × B)
and_iff {a = true} h k = (λ e. (h.0 refl, k.0 e), λ p. k.1 p.1)
and_iff {a = false} h k = (λ e. absurd (ground arith), λ p. h.1 p.0)

-- The rows that a filter means, column by column.
abbrev pub WantsSettlement : SettlementFilters → Settlement → Type 0
WantsSettlement f s =
    Text f.event_type (type_text s.event_type)
    × (Text f.supplier_operator_address s.supplier_operator_address
        × (Text f.service_id s.service_id
            × (From f.from_time (rfc3339 s.block_timestamp)
                × (Until f.to_time (rfc3339 s.block_timestamp)
                    × (AtLeast f.from_height s.block_height × AtMost f.to_height s.block_height)))))

abbrev pub WantsOverservice : OverserviceFilters → OverserviceEvent → Type 0
WantsOverservice f o =
    Text f.supplier_operator_address o.supplier_operator_address
    × (Text f.application_address o.application_address
        × (From f.from_time (rfc3339 o.block_timestamp)
            × (Until f.to_time (rfc3339 o.block_timestamp)
                × (AtLeast f.from_height o.block_height × AtMost f.to_height o.block_height))))

abbrev pub WantsServiceSummary : SummaryFilters → SummaryRow (ℕ × String) → Type 0
WantsServiceSummary f r =
    Text f.service_id r.key.1 × (From f.from_time r.key.0 × Until f.to_time r.key.0)

abbrev pub WantsNetworkSummary : SummaryFilters → SummaryRow ℕ → Type 0
WantsNetworkSummary f r = From f.from_time r.key × Until f.to_time r.key

abbrev pub WantsReimbursement : ReimbursementFilters → ReimbursementEvent → Type 0
WantsReimbursement f r =
    Text f.supplier_operator_address r.supplier_operator_address
    × (Text f.service_id r.service_id
        × (Text f.application_address r.application_address
            × (From f.from_time (rfc3339 r.block_timestamp)
                × (Until f.to_time (rfc3339 r.block_timestamp)
                    × (AtLeast f.from_height r.block_height × AtMost f.to_height r.block_height)))))

pub when_where_iff :
    (from_time to_time : Time) (from_height to_height : Int64) (ts : ℕ) (height : Int64)
    → (not_before from_time ts
          && (before_time to_time ts && (at_least from_height height && at_most to_height height))
        ≡ true)
      ↔ (From from_time ts
          × (Until to_time ts × (AtLeast from_height height × AtMost to_height height)))
when_where_iff from_time to_time from_height to_height ts height =
    and_iff (not_before_iff from_time ts) (
      and_iff (before_time_iff to_time ts)
        (and_iff (at_least_iff from_height height) (at_most_iff to_height height)))

pub wants_settlement_iff :
    (f : SettlementFilters) (s : Settlement) → (wants_settlement f s ≡ true) ↔ WantsSettlement f s
wants_settlement_iff f s = and_iff (has_text_iff f.event_type (type_text s.event_type)) (
    and_iff (has_text_iff f.supplier_operator_address s.supplier_operator_address) (
      and_iff (has_text_iff f.service_id s.service_id) (
        when_where_iff f.from_time f.to_time f.from_height f.to_height (rfc3339 s.block_timestamp)
          s.block_height)))

pub wants_overservice_iff :
    (f : OverserviceFilters) (o : OverserviceEvent)
    → (wants_overservice f o ≡ true) ↔ WantsOverservice f o
wants_overservice_iff f o =
    and_iff (has_text_iff f.supplier_operator_address o.supplier_operator_address) (
      and_iff (has_text_iff f.application_address o.application_address) (
        when_where_iff f.from_time f.to_time f.from_height f.to_height (rfc3339 o.block_timestamp)
          o.block_height))

pub wants_reimbursement_iff :
    (f : ReimbursementFilters) (r : ReimbursementEvent)
    → (wants_reimbursement f r ≡ true) ↔ WantsReimbursement f r
wants_reimbursement_iff f r =
    and_iff (has_text_iff f.supplier_operator_address r.supplier_operator_address) (
      and_iff (has_text_iff f.service_id r.service_id) (
        and_iff (has_text_iff f.application_address r.application_address) (
          when_where_iff f.from_time f.to_time f.from_height f.to_height (rfc3339 r.block_timestamp)
            r.block_height)))

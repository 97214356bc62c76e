-- ===== src/Subscriber/Decoder.antt =====
-- subscriber/decoder.go. The names of the six messages come from poktroll's registry and ParseTypedEvent
-- from the Cosmos SDK: both are arguments. (The counts of skipped events are only logged.)
pub mod Decoded
use pocket_settlement_monito.Prelude.{
  ℕ, ◌+◌, String, ◌≡◌, Bool, not, Option, none, some, List, [], ◌∷◌, ◌++◌, any, select, length,
  length-append, arith, if◌then◌else◌, Bool-cases, inl, inr,
}
use pocket_settlement_monito.Prelude.Eq.{◌=?◌, string_eq}
use pocket_settlement_monito.Prelude.Maps.{Map, get, put}
use pocket_settlement_monito.Prelude.Words.{Int64}
use pocket_settlement_monito.Store.Models.{Time}
use pocket_settlement_monito.Subscriber.Types.{Message, SettlementEvent, BlockEvents}

pub record AbciEvent : Type 0 where
  pub type : String
  pub attributes : List (String × String)

-- `Failures`; a count does not reach 2 ^ 63.
abbrev pub DecodeStats : Type 0
DecodeStats = Map String ℕ

abbrev pub or_zero : Option ℕ → ℕ
or_zero none = 0
or_zero (some n) = n

abbrev pub record_failure : String → DecodeStats → DecodeStats
record_failure event_type stats = put event_type (or_zero (get event_type stats) + 1) stats

abbrev pub filter_event_attrs : AbciEvent → AbciEvent
filter_event_attrs event = record event {
  attributes = select (λ attr. not (attr.0 =? "mode")) event.attributes;
}

module _ (target_event_types : List String) (parse_typed_event : AbciEvent → Option Message) where
  abbrev pub is_target : AbciEvent → Bool
  is_target event = any (λ name. name =? event.type) target_event_types

  abbrev pub parsed :
      AbciEvent → Int64 → DecodeStats → Option Message → Option SettlementEvent × DecodeStats
  parsed event height stats none = (none, record_failure event.type stats)
  parsed event height stats (some msg) =
      (some (record { height = height; event_type = event.type; event = msg }), stats)

  unfoldable pub decode_event :
      AbciEvent → Int64 → DecodeStats → Option SettlementEvent × DecodeStats
  decode_event event height stats =
      if is_target event
      then parsed event height stats (parse_typed_event (filter_event_attrs event))
      else (none, stats)

  abbrev pub append_decoded : List SettlementEvent → Option SettlementEvent → List SettlementEvent
  append_decoded events none = events
  append_decoded events (some e) = events ++ e ∷ []

  unfoldable pub decode_all :
      Int64
      → List AbciEvent
      → List SettlementEvent × DecodeStats
      → List SettlementEvent × DecodeStats
  decode_all height [] acc = acc
  decode_all height (event ∷ rest) (events, stats) =
      let (e, stats') = decode_event event height stats in
      decode_all height rest (append_decoded events e, stats')

  pub decode_block_events_common :
      List AbciEvent → Int64 → Time → DecodeStats → BlockEvents × DecodeStats
  decode_block_events_common abci_events height block_time stats =
      let (events, stats') = decode_all height abci_events ([], stats) in
      (record { height = height; timestamp = block_time; events = events }, stats')

-- ===== src/Subscriber/Decoder/Decoded.antt =====
-- What becomes of each event of a block.
use mathlib.Core.List.{append-nil, append_assoc}
use pocket_settlement_monito.Prelude.{
  ℕ, ◌+◌, String, ◌≡◌, ◌≢◌, refl, sym, ap, subst, ◌∙◌, inl, inr, Bool, true, false, not, Option,
  none, some, List, [], ◌∷◌, ◌++◌, select, fold, length, arith, if◌then◌else◌, Bool-cases,
}
use pocket_settlement_monito.Prelude.Eq.{◌=?◌, string_eq}
use pocket_settlement_monito.Prelude.Maps.{get, get-put}
use pocket_settlement_monito.Prelude.Words.{Int64}
use pocket_settlement_monito.Store.Models.{Time}
use pocket_settlement_monito.Subscriber.Types.{Message, SettlementEvent}
use pocket_settlement_monito.Subscriber.Decoder.{
  AbciEvent, DecodeStats, or_zero, record_failure, filter_event_attrs, is_target, parsed,
  decode_event, append_decoded, decode_all, decode_block_events_common,
}

-- The attributes without those named "mode".
pub data IsStripped : List (String × String) → List (String × String) → Type 0 where
  no_attribute : IsStripped [] []
  dropped :
      {value : String} {all rest : List (String × String)}
      → IsStripped all rest
      → IsStripped (("mode", value) ∷ all) rest
  kept :
      {key value : String} {all rest : List (String × String)}
      → key ≢ "mode"
      → IsStripped all rest
      → IsStripped ((key, value) ∷ all) ((key, value) ∷ rest)

abbrev is_kept : String × String → Bool
is_kept attr = not (attr.0 =? "mode")

select-IsStripped : (all : List (String × String)) → IsStripped all (select is_kept all)
select-IsStripped [] = no_attribute
select-IsStripped ((key, value) ∷ all) = elim (Bool-cases (key =? "mode")) [
  | inl mode ↦
      rw mode (rw ((string_eq.beq_iff key "mode").0 mode) (dropped (select-IsStripped all)))
  | inr another ↦ rw another (
      kept (λ e. absurd (ground (arith, (string_eq.beq_iff key "mode").1 e)))
        (select-IsStripped all))
]

-- How often each type failed.
abbrev pub failures_of : String → DecodeStats → ℕ
failures_of t stats = or_zero (get t stats)

failures_of-record_failure :
    (t u : String) (stats : DecodeStats)
    → failures_of t (record_failure u stats) ≡ failures_of t stats + (if u =? t then 1 else 0)
failures_of-record_failure t u stats = elim (Bool-cases (u =? t)) [
  | inl same ↦
      rw (get-put u t (failures_of u stats + 1) stats, same)
        (ap (λ w. failures_of w stats + 1) ((string_eq.beq_iff u t).0 same))
  | inr another ↦ rw (get-put u t (failures_of u stats + 1) stats, another) (omega arith)
]

abbrev record_failures : DecodeStats → List String → DecodeStats
record_failures = fold (λ stats t. record_failure t stats)

failures_of-record_failures :
    (t : String) (types : List String) (stats : DecodeStats)
    → failures_of t (record_failures stats types)
      ≡ failures_of t stats + length (select (λ u. u =? t) types)
failures_of-record_failures t [] stats = omega arith
failures_of-record_failures t (u ∷ types) stats = ground (
  arith,
  failures_of-record_failures t types (record_failure u stats),
  failures_of-record_failure t u stats,
)

module _ (target_event_types : List String) (parse_typed_event : AbciEvent → Option Message) where
  -- The settlement events of a block's events, in order, and the types of those that fail to parse.
  pub data Decodes (height : Int64)
      : List AbciEvent → List SettlementEvent → List String → Type 0 where
    no_event : Decodes height [] [] []
    skipped :
        {event : AbciEvent} {rest : List AbciEvent} {events : List SettlementEvent}
        {failed : List String}
        → is_target target_event_types parse_typed_event event ≡ false
        → Decodes height rest events failed
        → Decodes height (event ∷ rest) events failed
    decoded :
        {event : AbciEvent} {attrs : List (String × String)} {msg : Message} {rest : List AbciEvent}
        {events : List SettlementEvent} {failed : List String}
        → is_target target_event_types parse_typed_event event ≡ true
        → IsStripped event.attributes attrs
        → parse_typed_event (record event { attributes = attrs }) ≡ some msg
        → Decodes height rest events failed
        → Decodes height
            (event ∷ rest)
            (record { height = height; event_type = event.type; event = msg } ∷ events)
            failed
    unparsed :
        {event : AbciEvent} {attrs : List (String × String)} {rest : List AbciEvent}
        {events : List SettlementEvent} {failed : List String}
        → is_target target_event_types parse_typed_event event ≡ true
        → IsStripped event.attributes attrs
        → parse_typed_event (record event { attributes = attrs }) ≡ none
        → Decodes height rest events failed
        → Decodes height (event ∷ rest) events (event.type ∷ failed)

  abbrev Result :
      Int64
      → List AbciEvent
      → List SettlementEvent × DecodeStats
      → List SettlementEvent × DecodeStats
      → Type 0
  Result height abci (events, stats) (events', stats') =
      (new : List SettlementEvent) × (failed : List String) × Decodes height abci new failed
      × (events' ≡ events ++ new)
      × (stats' ≡ record_failures stats failed)

  -- The rest of the loop after an event's own part.
  abbrev After :
      Int64
      → AbciEvent
      → List AbciEvent
      → List SettlementEvent
      → DecodeStats
      → Option SettlementEvent × DecodeStats
      → Type 0
  After height event rest events stats (e, stats') =
      Result height (event ∷ rest) (events, stats)
        (decode_all target_event_types parse_typed_event height rest
          (append_decoded target_event_types parse_typed_event events e, stats'))

  decode_event-target :
      (event : AbciEvent) (height : Int64) (stats : DecodeStats)
      → is_target target_event_types parse_typed_event event ≡ true
      → decode_event target_event_types parse_typed_event event height stats
        ≡ parsed target_event_types parse_typed_event event height stats
            (parse_typed_event (filter_event_attrs event))
  unfolding decode_event
  decode_event-target event height stats target = rw target refl

  decode_event-other :
      (event : AbciEvent) (height : Int64) (stats : DecodeStats)
      → is_target target_event_types parse_typed_event event ≡ false
      → decode_event target_event_types parse_typed_event event height stats ≡ (none, stats)
  unfolding decode_event
  decode_event-other event height stats other = rw other refl

  -- An event of a known type, by what it parses to.
  parsed-Result :
      (height : Int64) (event : AbciEvent) (rest : List AbciEvent) (events : List SettlementEvent)
      (stats : DecodeStats)
      → ((before : List SettlementEvent) (counts : DecodeStats)
          → Result height rest
              (before, counts)
              (decode_all target_event_types parse_typed_event height rest (before, counts)))
      → is_target target_event_types parse_typed_event event ≡ true
      → (m : Option Message) → parse_typed_event (filter_event_attrs event) ≡ m
      → After height event rest events stats
          (parsed target_event_types parse_typed_event event height stats m)
  parsed-Result height event rest events stats go target none m =
      let (new, failed, d, e, f) = go events (record_failure event.type stats) in
      (new, event.type ∷ failed, unparsed target (select-IsStripped event.attributes) m d, e, f)
  parsed-Result height event rest events stats go target (some msg) m =
      let one : SettlementEvent = record {
        height = height;
        event_type = event.type;
        event = msg;
      } in
      let (new, failed, d, e, f) = go (events ++ one ∷ []) stats in
      (
        one ∷ new,
        failed,
        decoded target (select-IsStripped event.attributes) m d,
        e ∙ append_assoc events (one ∷ []) new,
        f,
      )

  decode_all-Result :
      (height : Int64) (abci : List AbciEvent) (events : List SettlementEvent) (stats : DecodeStats)
      → Result height abci
          (events, stats)
          (decode_all target_event_types parse_typed_event height abci (events, stats))
  unfolding decode_all
  decode_all-Result height [] events stats = ([], [], no_event, sym (append-nil events), refl)
  decode_all-Result height (event ∷ rest) events stats =
      elim (Bool-cases (is_target target_event_types parse_typed_event event)) [
        | inr other ↦
            let (new, failed, d, e, f) = decode_all-Result height rest events stats in
            subst (After height event rest events stats)
              (sym (decode_event-other event height stats other))
              (new, failed, skipped other d, e, f)
        | inl target ↦
            subst (After height event rest events stats)
              (sym (decode_event-target event height stats target))
              (parsed-Result height event rest events stats
                (λ before counts. decode_all-Result height rest before counts) target
                (parse_typed_event (filter_event_attrs event)) refl)
      ]

  -- A block's settlement events are those that its events of the known types parse to once their "mode"
  -- attributes are dropped, in their order and each with the block's height and its own type; the block
  -- carries the given height and time. For each type, the count of its failures grows by the number of its
  -- events of a known type that do not parse. Events of other types leave no trace.
  pub decode_block_events_common-Decodes :
      (abci : List AbciEvent) (height : Int64) (block_time : Time) (stats : DecodeStats)
      → let (block, stats') =
          decode_block_events_common target_event_types parse_typed_event abci height block_time
            stats in
        (block.height ≡ height)
        × (block.timestamp ≡ block_time)
        × (failed : List String) × Decodes height abci block.events failed
        × ((t : String)
            → failures_of t stats' ≡ failures_of t stats + length (select (λ u. u =? t) failed))
  unfolding decode_block_events_common
  decode_block_events_common-Decodes abci height block_time stats =
      let (new, failed, d, e, f) = decode_all-Result height abci [] stats in
      (
        refl,
        refl,
        failed,
        subst (λ es. Decodes height abci es failed) (sym e) d,
        λ t. ap (failures_of t) f ∙ failures_of-record_failures t failed stats,
      )

-- ===== src/Processor/Correlate.antt =====
-- processor/converter.go: correlateOverservice.
use pocket_settlement_monito.Prelude.{
  ℕ, suc, String, ◌≡◌, refl, Bool, true, false, Option, none, some, List, [], ◌∷◌, map,
  if◌then◌else◌, arith, ap, sym, ◌∙◌,
}
use pocket_settlement_monito.Prelude.Eq.{◌=?◌, string_eq, pair_eq}
use pocket_settlement_monito.Prelude.Words.{Int64, sub64}
use pocket_settlement_monito.Prelude.Maps.{Map, get, put, get-put}
use pocket_settlement_monito.Store.Models.{EventType, settled, Settlement}
use pocket_settlement_monito.Subscriber.Types.{
  EventApplicationOverserviced, Message, overserviced, SettlementEvent,
}
use pocket_settlement_monito.Processor.Coins.{parse_coin_amount}

-- overserviceKey: the supplier and the application.
abbrev pub OverserviceKey : Type 0
OverserviceKey = String × String

pub record OverserviceData : Type 0 where
  pub expected_burn_upokt : Int64
  pub effective_burn_upokt : Int64

abbrev pub data_of : EventApplicationOverserviced → OverserviceData
data_of o = record {
  expected_burn_upokt = parse_coin_amount o.expected_burn;
  effective_burn_upokt = parse_coin_amount o.effective_burn;
}

abbrev pub event_key : EventApplicationOverserviced → OverserviceKey
event_key o = (o.supplier_operator_addr, o.application_addr)

abbrev pub claim_key : Settlement → OverserviceKey
claim_key s = (s.supplier_operator_address, s.application_address)

-- Pass 1, one event.
add_event : Message → Map OverserviceKey OverserviceData → Map OverserviceKey OverserviceData
add_event (overserviced o) m = put (event_key o) (data_of o) m
add_event _ m = m

overservice_map :
    List SettlementEvent → Map OverserviceKey OverserviceData → Map OverserviceKey OverserviceData
overservice_map [] m = m
overservice_map (e ∷ events) m = overservice_map events (add_event e.event m)

abbrev is_settled : EventType → Bool
is_settled settled = true
is_settled _ = false

abbrev mark : Settlement → OverserviceData → Settlement
mark s d = record s {
  is_overserviced = true;
  effective_burn_upokt = d.effective_burn_upokt;
  overservice_diff_upokt = sub64 d.expected_burn_upokt d.effective_burn_upokt;
}

-- Pass 2, one settlement: the new row, and whether it was correlated.
abbrev mark_found : Settlement → Option OverserviceData → Settlement × Bool
mark_found s none = (s, false)
mark_found s (some d) = (mark s d, true)

correlate_one : Map OverserviceKey OverserviceData → Settlement → Settlement × Bool
correlate_one m s =
    if is_settled s.event_type then mark_found s (get (claim_key s) m) else (s, false)

correlate_all : Map OverserviceKey OverserviceData → List Settlement → List Settlement × ℕ
correlate_all m [] = ([], 0)
correlate_all m (s ∷ rest) =
    let (s', hit) = correlate_one m s in
    let (rest', count) = correlate_all m rest in (s' ∷ rest', if hit then suc count else count)

-- The settlements as the loop leaves them, and the number of correlations.
unfoldable pub correlate_overservice : List SettlementEvent → List Settlement → List Settlement × ℕ
unfolding overservice_map add_event correlate_all correlate_one
correlate_overservice events settlements = elim (overservice_map events []) [
  | [] ↦ (settlements, 0)
  | entry ∷ m ↦ correlate_all (entry ∷ m) settlements
]

-- What the correlation is to do, without a map: the last overservice event of the block with the key.
abbrev or_else : Option OverserviceData → Option OverserviceData → Option OverserviceData
or_else none d = d
or_else (some d) _ = some d

abbrev own_data : OverserviceKey → Message → Option OverserviceData
own_data k (overserviced o) = if event_key o =? k then some (data_of o) else none
own_data k _ = none

pub last_overservice : OverserviceKey → List SettlementEvent → Option OverserviceData
last_overservice k [] = none
last_overservice k (e ∷ events) = or_else (last_overservice k events) (own_data k e.event)

abbrev pub expected_row : List SettlementEvent → Settlement → Settlement × Bool
expected_row events s =
    if is_settled s.event_type
    then mark_found s (last_overservice (claim_key s) events)
    else (s, false)

abbrev pub hits : List SettlementEvent → List Settlement → ℕ
hits events [] = 0
hits events (s ∷ rest) = let n = hits events rest in if (expected_row events s).1 then suc n else n

add_event-get :
    (msg : Message) (m : Map OverserviceKey OverserviceData) (k : OverserviceKey)
    → get k (add_event msg m) ≡ or_else (own_data k msg) (get k m)
unfolding add_event
add_event-get (overserviced o) m k = ground (arith, get-put (event_key o) k (data_of o) m)
add_event-get _ m k = refl

or_else_assoc : (a b c : Option OverserviceData) → or_else a (or_else b c) ≡ or_else (or_else a b) c
or_else_assoc none b c = refl
or_else_assoc (some d) b c = refl

overservice_map-get :
    (events : List SettlementEvent) (m : Map OverserviceKey OverserviceData) (k : OverserviceKey)
    → get k (overservice_map events m) ≡ or_else (last_overservice k events) (get k m)
unfolding overservice_map last_overservice
overservice_map-get [] m k = refl
overservice_map-get (e ∷ events) m k =
    overservice_map-get events (add_event e.event m) k
    ∙ ap (or_else (last_overservice k events)) (add_event-get e.event m k)
    ∙ or_else_assoc (last_overservice k events) (own_data k e.event) (get k m)

-- In the end the map has the last data of each key.
found :
    (events : List SettlementEvent) (k : OverserviceKey)
    → get k (overservice_map events []) ≡ last_overservice k events
unfolding get
found events k = overservice_map-get events [] k ∙ or_else_none (last_overservice k events)
  where
    or_else_none : (d : Option OverserviceData) → or_else d none ≡ d
    or_else_none none = refl
    or_else_none (some d) = refl

correlate_one-eq :
    (events : List SettlementEvent) (s : Settlement)
    → correlate_one (overservice_map events []) s ≡ expected_row events s
unfolding correlate_one
correlate_one-eq events s = rw (found events (claim_key s))

correlate_all-eq :
    (events : List SettlementEvent) (ss : List Settlement)
    → correlate_all (overservice_map events []) ss
      ≡ (map (λ s. (expected_row events s).0) ss, hits events ss)
unfolding correlate_all
correlate_all-eq events [] = refl
correlate_all-eq events (s ∷ ss) = rw (correlate_one-eq events s, correlate_all-eq events ss)

-- An empty map correlates nothing, as the early return says.
correlate_all_empty : (ss : List Settlement) → correlate_all [] ss ≡ (ss, 0)
unfolding correlate_all correlate_one get
correlate_all_empty [] = refl
correlate_all_empty (s ∷ ss) = ground (arith, correlate_all_empty ss)

early_return :
    (m : Map OverserviceKey OverserviceData) (ss : List Settlement)
    → elim m [ [] ↦ (ss, 0) | entry ∷ rest ↦ correlate_all (entry ∷ rest) ss ] ≡ correlate_all m ss
early_return [] ss = sym (correlate_all_empty ss)
early_return (entry ∷ rest) ss = refl

-- Each settled row takes its burn amounts from the last overservice event of the block with its
-- supplier and application, where there is one; every other row stays as it is, the order too, and
-- the result counts the rows that were marked.
pub correlate_overservice_lem :
    (events : List SettlementEvent) (ss : List Settlement)
    → correlate_overservice events ss ≡ (map (λ s. (expected_row events s).0) ss, hits events ss)
unfolding correlate_overservice
correlate_overservice_lem events ss =
    early_return (overservice_map events []) ss ∙ correlate_all-eq events ss

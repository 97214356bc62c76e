-- ===== src/Store/Period.antt =====
-- store/sqlite.go: the SELECTs over a period [from, to) of block timestamps, and the count of active
-- suppliers. The timestamps are compared as the texts of the column.
use pocket_settlement_monito.Prelude.{
  ◌≡◌, String, Bool, true, false, ◌&&◌, List, [], ◌∷◌, map, select, any, length, leb, ltb,
  if◌then◌else◌,
}
use pocket_settlement_monito.Prelude.Eq.{◌=?◌, string_eq}
use pocket_settlement_monito.Prelude.Words.{Int64, slt, sle}
use pocket_settlement_monito.Prelude.Exec.{Exec}
use pocket_settlement_monito.Store.Models.{
  Time, rfc3339, Settlement, OverserviceEvent, ReimbursementEvent,
}
use pocket_settlement_monito.Store.Tables.{Tables}
use pocket_settlement_monito.Store.Db.{Db, query}

-- block_timestamp >= from AND block_timestamp < to
abbrev pub in_period : Time → Time → Time → Bool
in_period from to ts = leb (rfc3339 from) (rfc3339 ts) && ltb (rfc3339 ts) (rfc3339 to)

-- ORDER BY block_height, id
abbrev pub before_row : Settlement → Settlement → Bool
before_row a b =
    if slt a.block_height b.block_height
    then true
    else if slt b.block_height a.block_height
    then false
    else sle a.id b.id

unfoldable pub insert_row : Settlement → List Settlement → List Settlement
insert_row s [] = s ∷ []
insert_row s (r ∷ rows) = if before_row s r then s ∷ r ∷ rows else r ∷ insert_row s rows

unfoldable pub order_rows : List Settlement → List Settlement
order_rows [] = []
order_rows (s ∷ rows) = insert_row s (order_rows rows)

abbrev pub settlements_in : Time → Time → Tables → List Settlement
settlements_in from to t = select (λ s. in_period from to s.block_timestamp) t.settlements.rows

abbrev pub overservices_in : Time → Time → Tables → List OverserviceEvent
overservices_in from to t =
    select (λ o. in_period from to o.block_timestamp) t.overservice_events.rows

abbrev pub reimbursements_in : Time → Time → Tables → List ReimbursementEvent
reimbursements_in from to t =
    select (λ r. in_period from to r.block_timestamp) t.reimbursement_events.rows

unfoldable pub query_settlements_for_period : Time → Time → Exec Db (List Settlement)
query_settlements_for_period from to = query (λ t. order_rows (settlements_in from to t))

unfoldable pub query_overservice_events_for_period : Time → Time → Exec Db (List OverserviceEvent)
query_overservice_events_for_period from to = query (overservices_in from to)

unfoldable pub query_reimbursement_events_for_period :
    Time → Time → Exec Db (List ReimbursementEvent)
query_reimbursement_events_for_period from to = query (reimbursements_in from to)

-- SELECT DISTINCT
unfoldable pub distinct : List String → List String
distinct [] = []
distinct (a ∷ others) =
    let rest = distinct others in if any (λ b. b =? a) rest then rest else a ∷ rest

-- COUNT(DISTINCT supplier_operator_address), of one service or, for "", of all.
unfoldable pub suppliers_in : Time → Time → String → Tables → Int64
suppliers_in from to service t =
    let rows = settlements_in from to t in
    let of_service = select (λ s. if service =? "" then true else s.service_id =? service) rows in
    length (distinct (map (λ s. s.supplier_operator_address) of_service))

unfoldable pub count_active_suppliers : Time → Time → String → Exec Db Int64
count_active_suppliers from to service = query (suppliers_in from to service)

-- SELECT DISTINCT service_id FROM settlements. (Its ORDER BY does not matter: the result goes into a set.)
unfoldable pub distinct_service_ids : Exec Db (List String)
distinct_service_ids = query (λ t. distinct (map (λ s. s.service_id) t.settlements.rows))

-- The count reads the settlements alone.
pub suppliers_in_frame :
    (from to : Time) (service : String) (t u : Tables)
    → t.settlements ≡ u.settlements
    → suppliers_in from to service t ≡ suppliers_in from to service u
unfolding suppliers_in
suppliers_in_frame from to service t u e = rw e

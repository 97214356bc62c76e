-- ===== src/Notify/Breakdown.antt =====
-- notify/notifier.go: buildSupplierBreakdown, the suppliers of a day that claimed the most. Suppliers that
-- claimed the same come in any order in Go.
use pocket_settlement_monito.Prelude.{◌+◌, String, Bool, Option, none, some, List, [], ◌∷◌, take}
use pocket_settlement_monito.Prelude.Eq.{string_eq}
use pocket_settlement_monito.Prelude.Maps.{Map, get, put}
use pocket_settlement_monito.Prelude.Words.{Int64, add64, sle}
use pocket_settlement_monito.Prelude.Sorting.{sort}
use pocket_settlement_monito.Prelude.Exec.{Result, ok, err}
use pocket_settlement_monito.Store.Models.{Time, Settlement}
use pocket_settlement_monito.Store.Db.{Db}
use pocket_settlement_monito.Store.Period.{query_settlements_for_period}
use pocket_settlement_monito.Processor.Reporter.{day}
use pocket_settlement_monito.Notify.Embeds.{SupplierStats}

abbrev pub or_zero : Option Int64 → Int64
or_zero none = 0
or_zero (some n) = n

-- `grouped[s.SupplierOperatorAddress] += s.ClaimedUpokt`
unfoldable pub add_claims : List Settlement → Map String Int64 → Map String Int64
add_claims [] m = m
add_claims (s ∷ ss) m =
    let address = s.supplier_operator_address in
    add_claims ss (put address (add64 (or_zero (get address m)) s.claimed_upokt) m)

abbrev pub claims_more : SupplierStats → SupplierStats → Bool
claims_more a b = sle b.1 a.1

unfoldable pub top_suppliers : List Settlement → List SupplierStats
top_suppliers ss = take 10 (sort claims_more (add_claims ss []))

abbrev breakdown_of : Result (List Settlement) × Db → List SupplierStats × Db
breakdown_of (ok ss, db) = (top_suppliers ss, db)
breakdown_of (err e, db) = ([], db)

-- A failed SELECT gives no breakdown.
unfoldable pub build_supplier_breakdown : Time → Db → List SupplierStats × Db
build_supplier_breakdown day_start db =
    breakdown_of (query_settlements_for_period day_start (day_start + day) db)

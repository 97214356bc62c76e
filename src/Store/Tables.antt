-- ===== src/Store/Tables.antt =====
-- store/schema.sql: the tables with their UNIQUE constraints, and the two ways in which the statements
-- of store/sqlite.go write a row: INSERT OR IGNORE, and INSERT … ON CONFLICT … DO UPDATE.
pub mod Laws
use pocket_settlement_monito.Prelude.{
  ℕ, ◌+◌, String, Bool, true, false, Option, none, some, List, [], ◌∷◌, ◌++◌, any, if◌then◌else◌,
}
use pocket_settlement_monito.Prelude.Eq.{Eq, ◌=?◌, nat_eq, string_eq, pair_eq}
use pocket_settlement_monito.Prelude.Words.{Int64}
use pocket_settlement_monito.Store.Models.{
  EventType, event_type_eq, Settlement, RewardDistribution, OverserviceEvent, ReimbursementEvent,
  ProcessedBlock, Totals, SummaryRow, HourlySummaryService, HourlySummaryNetwork,
  DailySummaryService, DailySummaryNetwork, zero_totals,
}

-- A table with INTEGER PRIMARY KEY AUTOINCREMENT: `last_id` is the greatest id ever given.
pub record Table (R : Type 0) : Type 0 where
  pub rows : List R
  pub last_id : ℕ

abbrev pub empty_table : {R : Type 0} → Table R
empty_table = record { rows = []; last_id = 0 }

module _ {K R : Type 0} ⦃e : Eq K⦄ (key : R → K) where
  -- Some row has the unique key `k`.
  abbrev pub taken : K → List R → Bool
  taken k rows = any (λ r. key r =? k) rows

  -- INSERT OR IGNORE: a row whose key is taken is skipped. RowsAffected and LastInsertId are the
  -- second part, `none` where no row was written.
  pub insert_or_ignore : (ℕ → R) → Table R → Table R × Option ℕ
  insert_or_ignore make t =
      let id = t.last_id + 1 in
      if taken (key (make id)) t.rows
      then (t, none)
      else (record { rows = t.rows ++ make id ∷ []; last_id = id }, some id)

  -- The same for a table whose primary key is a column of the row.
  pub insert_keyed : R → List R → List R
  insert_keyed r rows = if taken (key r) rows then rows else rows ++ r ∷ []

module _ {K : Type 0} ⦃e : Eq K⦄ where
  -- INSERT … ON CONFLICT(key) DO UPDATE SET every other column.
  pub upsert : K → Totals → List (SummaryRow K) → List (SummaryRow K)
  upsert k t [] = record { key = k; totals = t } ∷ []
  upsert k t (r ∷ rows) =
      if r.key =? k then record { key = k; totals = t } ∷ rows else r ∷ upsert k t rows

  -- SELECT … WHERE key = ?; a zero-value struct if no row exists.
  pub get_summary : K → List (SummaryRow K) → Totals
  get_summary k [] = zero_totals
  get_summary k (r ∷ rows) = if r.key =? k then r.totals else get_summary k rows

pub record Tables : Type 0 where
  pub settlements : Table Settlement
  pub reward_distributions : Table RewardDistribution
  pub overservice_events : Table OverserviceEvent
  pub reimbursement_events : Table ReimbursementEvent
  pub processed_blocks : List ProcessedBlock
  pub hourly_summaries_service : List HourlySummaryService
  pub hourly_summaries_network : List HourlySummaryNetwork
  pub daily_summaries_service : List DailySummaryService
  pub daily_summaries_network : List DailySummaryNetwork

-- The schema, applied to a new database.
abbrev pub empty_tables : Tables
empty_tables = record {
  settlements = empty_table;
  reward_distributions = empty_table;
  overservice_events = empty_table;
  reimbursement_events = empty_table;
  processed_blocks = [];
  hourly_summaries_service = [];
  hourly_summaries_network = [];
  daily_summaries_service = [];
  daily_summaries_network = [];
}

-- UNIQUE(block_height, event_type, supplier_operator_address, application_address,
-- session_end_block_height)
abbrev pub SettlementKey : Type 0
SettlementKey = Int64 × (EventType × (String × (String × Int64)))

abbrev pub settlement_key : Settlement → SettlementKey
settlement_key s = (
  s.block_height,
  (
    s.event_type,
    (s.supplier_operator_address, (s.application_address, s.session_end_block_height)),
  ),
)

-- UNIQUE(settlement_id, address)
abbrev pub reward_key : RewardDistribution → Int64 × String
reward_key r = (r.settlement_id, r.address)

-- UNIQUE(block_height, application_address, supplier_operator_address)
abbrev pub overservice_key : OverserviceEvent → Int64 × (String × String)
overservice_key o = (o.block_height, (o.application_address, o.supplier_operator_address))

-- UNIQUE(block_height, application_address, supplier_operator_address, session_id)
abbrev pub reimbursement_key : ReimbursementEvent → Int64 × (String × (String × String))
reimbursement_key r =
    (r.block_height, (r.application_address, (r.supplier_operator_address, r.session_id)))

-- height INTEGER PRIMARY KEY
abbrev pub block_key : ProcessedBlock → Int64
block_key b = b.height

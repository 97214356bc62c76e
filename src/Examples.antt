-- ===== src/Examples.antt =====
-- The theorems on the store at small inputs, and what the children share.
pub mod Pipeline
pub mod Collector
pub mod Recalculate
pub mod Query
pub mod Notify
pub mod Texts
pub mod Search
pub mod Backfill
pub mod Subscriber
pub mod Config
pub mod Commands
use native.Mathlib.Nat.{div_self}
use pocket_settlement_monito.Prelude.{
  ℕ, ◌+◌, ◌-◌, ◌*◌, ◌/◌, ◌^◌, ◌≤◌, ◌<◌, String, ◌≡◌, ◌≢◌, ◌⊎◌, Bool, true, false, Option, none,
  some, List, [], ◌∷◌, ◌++◌, map, All, any, length, select, arith, ltb, if◌then◌else◌,
}
use pocket_settlement_monito.Prelude.Eq.{◌=?◌, nat_eq, string_eq}
use pocket_settlement_monito.Prelude.Words.{Int64, two63}
use pocket_settlement_monito.Prelude.Exec.{Exec, Result, ok, err, store, Error}
use pocket_settlement_monito.Store.Models.{
  Time, rfc3339, settled, expired, live, backfill, Settlement, RewardDistribution, OverserviceEvent,
  ReimbursementEvent, ProcessedBlock, Float64,
}
use pocket_settlement_monito.Store.Tables.{Tables, empty_tables}
use pocket_settlement_monito.Store.Tables.Laws.{KeysDistinct}
use pocket_settlement_monito.Store.Db.{Db, Fails}
use pocket_settlement_monito.Store.Insert.{RewardMap, insert_block_events, write_block}
use pocket_settlement_monito.Store.Insert.Atomic.{insert_block_events_atomic}
use pocket_settlement_monito.Store.Insert.Keeps.{insert_block_events-IsWellFormed}
use pocket_settlement_monito.Store.WellFormed.{IsWellFormed, empty-IsWellFormed}
use pocket_settlement_monito.Store.Retention.{run_retention_cleanup, cutoffs, no_rows}
use pocket_settlement_monito.Store.Retention.Safety.{
  purged, losses, run_retention_cleanup_atomic, losses_complete, cutoffs_fit, cutoffs_wrap,
}
use pocket_settlement_monito.Processor.Convert.{
  Externals, zero_settlement, compute_difficulty, compute_difficulty_base,
}

-- Whole numbers in place of float64.
abbrev pub whole_numbers : Externals
whole_numbers = record {
  float_of = λ n. n;
  float_div = λ a b. a / b;
  float_mul = λ a b. a * b;
  int64_of = λ a. a;
  float_one = 1;
  float_zero = 0;
  reason_name = λ n. "PROOF_MISSING";
}

abbrev pub noon : Time
noon = 63840000000000000000

abbrev pub a_settlement : Settlement
a_settlement = record (zero_settlement whole_numbers) {
  block_height = 100;
  block_timestamp = noon;
  event_type = settled;
  supplier_operator_address = "supplier";
  application_address = "app";
  service_id = "eth";
  session_end_block_height = 90;
  claimed_upokt = 700;
  num_relays = 5;
}

abbrev a_block : ProcessedBlock
a_block = record { height = 100; block_timestamp = noon; event_count = 1; source = live }

abbrev a_reward : RewardDistribution
a_reward = record { id = 0; settlement_id = 0; address = "owner"; amount_upokt = 700 }

abbrev rewards : RewardMap
rewards = (0, a_reward ∷ []) ∷ []

abbrev pub a_reimbursement : ReimbursementEvent
a_reimbursement = record {
  id = 0;
  block_height = 100;
  block_timestamp = noon;
  application_address = "app";
  supplier_operator_address = "supplier";
  supplier_owner_address = "owner";
  service_id = "eth";
  session_id = "s1";
  amount_upokt = 20;
}

abbrev pub an_overservice : OverserviceEvent
an_overservice = record {
  id = 0;
  block_height = 100;
  block_timestamp = noon;
  application_address = "app";
  supplier_operator_address = "supplier";
  expected_burn_upokt = 900;
  effective_burn_upokt = 700;
}

-- The third insertion's statement fails.
abbrev failing_db : Db
failing_db = record {
  tables = empty_tables;
  failures = false ∷ false ∷ false ∷ false ∷ false ∷ false ∷ false ∷ true ∷ [];
}

abbrev pub fresh_db : Db
fresh_db = record { tables = empty_tables; failures = [] }

abbrev insert_in : Db → Result (Unit {0}) × Db
insert_in =
    insert_block_events a_block (a_settlement ∷ []) rewards (an_overservice ∷ [])
      (a_reimbursement ∷ [])

insert_block_events_atomic_example :
    (((insert_in failing_db).0 ≡ err store)
      × ((insert_in failing_db).1.tables ≡ empty_tables)
      × Fails failing_db)
    ⊎ (((insert_in failing_db).0 ≡ ok tt)
        × ((insert_in failing_db).1.tables
            ≡ write_block a_block
                (a_settlement ∷ [])
                rewards
                (an_overservice ∷ [])
                (a_reimbursement ∷ [])
                empty_tables))
insert_block_events_atomic_example =
    insert_block_events_atomic a_block (a_settlement ∷ []) rewards (an_overservice ∷ [])
      (a_reimbursement ∷ []) failing_db

-- The database as the first insertion leaves it, with an engine that fails at the next BEGIN.
abbrev later_db : Db
later_db = record (insert_in fresh_db).1 { failures = true ∷ [] }

-- The same block, found again by a backfill.
abbrev again_block : ProcessedBlock
again_block = record a_block { source = backfill }

insert_block_events-IsWellFormed_example : IsWellFormed (insert_in failing_db).1.tables
insert_block_events-IsWellFormed_example =
    insert_block_events-IsWellFormed a_block (a_settlement ∷ []) rewards (an_overservice ∷ [])
      (a_reimbursement ∷ []) failing_db empty-IsWellFormed

-- Two days.
abbrev two_days : Int64
two_days = 172800000000000

abbrev pub filled : Tables
filled = (insert_in fresh_db).1.tables

abbrev cleanup_now : Time
cleanup_now = noon + 5 * two_days

abbrev pub filled_db : Db
filled_db = record { tables = filled; failures = false ∷ false ∷ true ∷ [] }

run_retention_cleanup_atomic_example :
    ((two_days ≡ 0)
      × (run_retention_cleanup cleanup_now two_days filled_db ≡ (ok no_rows, filled_db)))
    ⊎ (((run_retention_cleanup cleanup_now two_days filled_db).0 ≡ err store)
        × ((run_retention_cleanup cleanup_now two_days filled_db).1.tables ≡ filled)
        × Fails filled_db)
    ⊎ (((run_retention_cleanup cleanup_now two_days filled_db).0
          ≡ ok (losses (cutoffs cleanup_now two_days) filled))
        × ((run_retention_cleanup cleanup_now two_days filled_db).1.tables
            ≡ purged (cutoffs cleanup_now two_days) filled))
run_retention_cleanup_atomic_example = run_retention_cleanup_atomic cleanup_now two_days filled_db

-- Fifty years of 365 days.
abbrev fifty_years : Int64
fifty_years = 1576800000000000000

cutoffs_wrap_example : cleanup_now < (cutoffs cleanup_now fifty_years).daily
cutoffs_wrap_example = cutoffs_wrap cleanup_now fifty_years (ground arith) (ground arith)

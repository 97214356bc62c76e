-- ===== src/Store/Insert.antt =====
-- store/sqlite.go: InsertBlockEvents, all events of one block in one transaction, and
-- LastProcessedHeight. `write_block` is what the transaction does to the tables when nothing fails.
pub mod Atomic
pub mod Idempotent
pub mod Keeps
use pocket_settlement_monito.Prelude.{
  ℕ, ◌+◌, ◌≡◌, Bool, ◌==◌, if◌then◌else◌, Option, none, some, List, [], ◌∷◌, ◌⊎◌, fold, leb,
}
use pocket_settlement_monito.Prelude.Eq.{nat_eq, string_eq, pair_eq}
use pocket_settlement_monito.Prelude.Words.{Int64, slt}
use pocket_settlement_monito.Prelude.Exec.{Exec, ok, pure, ◌>>=◌, ◌>>◌, for_each}
use pocket_settlement_monito.Store.Models.{
  event_type_eq, Time, rfc3339, parse_rfc3339, Settlement, RewardDistribution, OverserviceEvent,
  ReimbursementEvent, ProcessedBlock,
}
use pocket_settlement_monito.Store.Tables.{
  Table, Tables, insert_or_ignore, insert_keyed, settlement_key, reward_key, overservice_key,
  reimbursement_key, block_key,
}
use pocket_settlement_monito.Store.Db.{
  Db, statement, execute, query, no_write, transaction, Implements, in_turn, IsAtomic,
  statement-Implements, pure-Implements, bind-Implements, for_each-Implements, transaction-IsAtomic,
}

-- `map[int][]RewardDistribution`: the rewards of the settlement at an index.
abbrev pub RewardMap : Type 0
RewardMap = List (ℕ × List RewardDistribution)

-- `rewardDists[i]`, nil where the index is missing.
pub rewards_at : ℕ → RewardMap → List RewardDistribution
rewards_at i [] = []
rewards_at i ((j, rds) ∷ m) = if j == i then rds else rewards_at i m

-- The column `block_timestamp` takes the block's time, whatever the event says.
abbrev column_time : Time → Time
column_time ts = parse_rfc3339 (rfc3339 ts)

abbrev pub settlement_row : Time → Settlement → ℕ → Settlement
settlement_row ts s id = record s { id = id; block_timestamp = column_time ts }

abbrev pub reward_row : ℕ → RewardDistribution → ℕ → RewardDistribution
reward_row settlement_id rd id = record rd { id = id; settlement_id = settlement_id }

abbrev pub overservice_row : Time → OverserviceEvent → ℕ → OverserviceEvent
overservice_row ts o id = record o { id = id; block_timestamp = column_time ts }

abbrev pub reimbursement_row : Time → ReimbursementEvent → ℕ → ReimbursementEvent
reimbursement_row ts r id = record r { id = id; block_timestamp = column_time ts }

abbrev pub block_row : ProcessedBlock → ProcessedBlock
block_row b = record b { block_timestamp = column_time b.block_timestamp }

unfoldable pub put_settlement : Time → Settlement → Tables → Option ℕ × Tables
put_settlement ts s t =
    let (table, id) = insert_or_ignore settlement_key (settlement_row ts s) t.settlements in
    (id, record t { settlements = table })

unfoldable pub put_reward : ℕ → RewardDistribution → Tables → Tables
put_reward settlement_id rd t =
    let (table, _) =
      insert_or_ignore reward_key (reward_row settlement_id rd) t.reward_distributions in
    record t { reward_distributions = table }

unfoldable pub put_overservice : Time → OverserviceEvent → Tables → Tables
put_overservice ts o t =
    let (table, _) = insert_or_ignore overservice_key (overservice_row ts o) t.overservice_events in
    record t { overservice_events = table }

unfoldable pub put_reimbursement : Time → ReimbursementEvent → Tables → Tables
put_reimbursement ts r t =
    let (table, _) =
      insert_or_ignore reimbursement_key (reimbursement_row ts r) t.reimbursement_events in
    record t { reimbursement_events = table }

unfoldable pub put_block : ProcessedBlock → Tables → Tables
put_block b t = record t {
  processed_blocks = insert_keyed block_key (block_row b) t.processed_blocks;
}

-- The rewards of a settlement are written only if its own row was.
insert_rewards : Option ℕ → List RewardDistribution → Exec Db Unit
insert_rewards none rds = pure tt
insert_rewards (some id) rds = for_each (λ rd. execute (put_reward id rd)) rds

insert_settlements : Time → RewardMap → ℕ → List Settlement → Exec Db Unit
insert_settlements ts rewards i [] = pure tt
insert_settlements ts rewards i (s ∷ rest) = do
  id ← statement (put_settlement ts s)
  insert_rewards id (rewards_at i rewards)
  insert_settlements ts rewards (i + 1) rest

pub insert_block_events :
    ProcessedBlock
    → List Settlement
    → RewardMap
    → List OverserviceEvent
    → List ReimbursementEvent
    → Exec Db Unit
insert_block_events block settlements rewards overservices reimbursements =
    let ts = block.block_timestamp in
    transaction (do
      -- the four prepared statements
      no_write
      no_write
      no_write
      no_write
      insert_settlements ts rewards 0 settlements
      for_each (λ o. execute (put_overservice ts o)) overservices
      for_each (λ r. execute (put_reimbursement ts r)) reimbursements
      execute (put_block block))

-- The effect of the loops, with no failures.
write_rewards : Option ℕ → List RewardDistribution → Tables → Tables
write_rewards none rds t = t
write_rewards (some id) rds t = in_turn (put_reward id) rds t

write_settlements : Time → RewardMap → ℕ → List Settlement → Tables → Tables
write_settlements ts rewards i [] t = t
write_settlements ts rewards i (s ∷ rest) t =
    let (id, t') = put_settlement ts s t in
    write_settlements ts rewards (i + 1) rest (write_rewards id (rewards_at i rewards) t')

pub write_block :
    ProcessedBlock
    → List Settlement
    → RewardMap
    → List OverserviceEvent
    → List ReimbursementEvent
    → Tables
    → Tables
write_block block settlements rewards overservices reimbursements t =
    let ts = block.block_timestamp in
    let t₁ = write_settlements ts rewards 0 settlements t in
    let t₂ = in_turn (put_overservice ts) overservices t₁ in
    let t₃ = in_turn (put_reimbursement ts) reimbursements t₂ in put_block block t₃

-- SELECT MAX(height) FROM processed_blocks, 0 on an empty table. Heights are not negative.
max_height : List ProcessedBlock → Int64
max_height [] = 0
max_height (b ∷ bs) = let m = max_height bs in if slt m b.height then b.height else m

pub last_processed_height : Exec Db Int64
last_processed_height = query (λ t. max_height t.processed_blocks)

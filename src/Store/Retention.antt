-- ===== src/Store/Retention.antt =====
-- store/sqlite.go: RunRetentionCleanup. The clock and the configured retention are arguments; the
-- clock's zone is UTC, as that of the stored timestamps.
pub mod Safety
use pocket_settlement_monito.Prelude.{
  ℕ, ◌+◌, ◌-◌, ◌*◌, ◌%◌, Bool, true, false, not, List, [], ◌∷◌, select, any, length, ltb, ◌==◌,
  if◌then◌else◌,
}
use pocket_settlement_monito.Prelude.Words.{Int64, two63, two64}
use pocket_settlement_monito.Prelude.Exec.{Exec, pure, ◌>>=◌}
use pocket_settlement_monito.Store.Models.{
  Time, rfc3339, Settlement, RewardDistribution, SummaryRow,
}
use pocket_settlement_monito.Store.Tables.{Table, Tables, taken}
use pocket_settlement_monito.Store.Db.{Db, statement, transaction}

-- The raw rows, the hourly and the daily summaries live for 1, 3 and 6 retention periods.
pub record Cutoffs : Type 0 where
  pub raw : Time
  pub hourly : Time
  pub daily : Time

-- `t.Add(d)`; a duration is an int64 of nanoseconds.
abbrev add_duration : Time → Int64 → Time
add_duration t d = if ltb d two63 then t + d else t - (two64 - d)

-- `-k * retention`, which wraps.
abbrev minus_times : ℕ → Int64 → Int64
minus_times k retention = (two64 - k * retention % two64) % two64

unfoldable pub cutoffs : Time → Int64 → Cutoffs
cutoffs now retention = record {
  raw = add_duration now (minus_times 1 retention);
  hourly = add_duration now (minus_times 3 retention);
  daily = add_duration now (minus_times 6 retention);
}

pub record RetentionResult : Type 0 where
  pub reward_distributions_deleted : ℕ
  pub settlements_deleted : ℕ
  pub overservice_events_deleted : ℕ
  pub reimbursement_events_deleted : ℕ
  pub processed_blocks_deleted : ℕ
  pub hourly_summary_service_deleted : ℕ
  pub hourly_summary_network_deleted : ℕ
  pub daily_summary_service_deleted : ℕ
  pub daily_summary_network_deleted : ℕ

abbrev pub no_rows : RetentionResult
no_rows = record {
  reward_distributions_deleted = 0;
  settlements_deleted = 0;
  overservice_events_deleted = 0;
  reimbursement_events_deleted = 0;
  processed_blocks_deleted = 0;
  hourly_summary_service_deleted = 0;
  hourly_summary_network_deleted = 0;
  daily_summary_service_deleted = 0;
  daily_summary_network_deleted = 0;
}

-- column < cutoff, as texts.
abbrev pub older : Time → Time → Bool
older cutoff ts = ltb (rfc3339 ts) (rfc3339 cutoff)

-- The period of a summary row is a text already.
abbrev pub period_older : Time → ℕ → Bool
period_older cutoff period = ltb period (rfc3339 cutoff)

module _ {R : Type 0} where
  -- What DELETE … WHERE old leaves, and how many rows it deletes.
  abbrev pub keep : (R → Bool) → List R → List R
  keep old rows = select (λ r. not (old r)) rows

  abbrev pub deleted : (R → Bool) → List R → ℕ
  deleted old rows = length (select old rows)

  abbrev keep_rows : (R → Bool) → Table R → Table R
  keep_rows old t = record t { rows = keep old t.rows }

-- settlement_id IN (SELECT id FROM settlements WHERE block_timestamp < cutoff)
abbrev pub of_old_settlement : Time → Tables → RewardDistribution → Bool
of_old_settlement cutoff t rd =
    any (λ s. s.id == rd.settlement_id)
      (select (λ s. older cutoff s.block_timestamp) t.settlements.rows)

delete_rewards : Time → Tables → ℕ × Tables
delete_rewards cutoff t = (
  deleted (of_old_settlement cutoff t) t.reward_distributions.rows,
  record t { reward_distributions = keep_rows (of_old_settlement cutoff t) t.reward_distributions },
)

-- ON DELETE CASCADE takes the rewards that still refer to a deleted settlement.
delete_settlements : Time → Tables → ℕ × Tables
delete_settlements cutoff t = (
  deleted (λ s. older cutoff s.block_timestamp) t.settlements.rows,
  record t {
    settlements = keep_rows (λ s. older cutoff s.block_timestamp) t.settlements;
    reward_distributions = keep_rows (of_old_settlement cutoff t) t.reward_distributions;
  },
)

delete_overservices : Time → Tables → ℕ × Tables
delete_overservices cutoff t = (
  deleted (λ o. older cutoff o.block_timestamp) t.overservice_events.rows,
  record t {
    overservice_events = keep_rows (λ o. older cutoff o.block_timestamp) t.overservice_events;
  },
)

delete_reimbursements : Time → Tables → ℕ × Tables
delete_reimbursements cutoff t = (
  deleted (λ r. older cutoff r.block_timestamp) t.reimbursement_events.rows,
  record t {
    reimbursement_events = keep_rows (λ r. older cutoff r.block_timestamp) t.reimbursement_events;
  },
)

delete_blocks : Time → Tables → ℕ × Tables
delete_blocks cutoff t = (
  deleted (λ b. older cutoff b.block_timestamp) t.processed_blocks,
  record t { processed_blocks = keep (λ b. older cutoff b.block_timestamp) t.processed_blocks },
)

delete_hourly_service : Time → Tables → ℕ × Tables
delete_hourly_service cutoff t = (
  deleted (λ r. period_older cutoff r.key.0) t.hourly_summaries_service,
  record t {
    hourly_summaries_service = keep (λ r. period_older cutoff r.key.0) t.hourly_summaries_service;
  },
)

delete_hourly_network : Time → Tables → ℕ × Tables
delete_hourly_network cutoff t = (
  deleted (λ r. period_older cutoff r.key) t.hourly_summaries_network,
  record t {
    hourly_summaries_network = keep (λ r. period_older cutoff r.key) t.hourly_summaries_network;
  },
)

delete_daily_service : Time → Tables → ℕ × Tables
delete_daily_service cutoff t = (
  deleted (λ r. period_older cutoff r.key.0) t.daily_summaries_service,
  record t {
    daily_summaries_service = keep (λ r. period_older cutoff r.key.0) t.daily_summaries_service;
  },
)

delete_daily_network : Time → Tables → ℕ × Tables
delete_daily_network cutoff t = (
  deleted (λ r. period_older cutoff r.key) t.daily_summaries_network,
  record t {
    daily_summaries_network = keep (λ r. period_older cutoff r.key) t.daily_summaries_network;
  },
)

-- The nine DELETEs, in the code's order.
cleanup : Cutoffs → Exec Db RetentionResult
cleanup c = do
  rewards ← statement (delete_rewards c.raw)
  settlements ← statement (delete_settlements c.raw)
  overservices ← statement (delete_overservices c.raw)
  reimbursements ← statement (delete_reimbursements c.raw)
  blocks ← statement (delete_blocks c.raw)
  hourly_service ← statement (delete_hourly_service c.hourly)
  hourly_network ← statement (delete_hourly_network c.hourly)
  daily_service ← statement (delete_daily_service c.daily)
  daily_network ← statement (delete_daily_network c.daily)
  pure (record {
    reward_distributions_deleted = rewards;
    settlements_deleted = settlements;
    overservice_events_deleted = overservices;
    reimbursement_events_deleted = reimbursements;
    processed_blocks_deleted = blocks;
    hourly_summary_service_deleted = hourly_service;
    hourly_summary_network_deleted = hourly_network;
    daily_summary_service_deleted = daily_service;
    daily_summary_network_deleted = daily_network;
  })

pub run_retention_cleanup : Time → Int64 → Exec Db RetentionResult
run_retention_cleanup now retention =
    if retention == 0 then pure no_rows else transaction (cleanup (cutoffs now retention))

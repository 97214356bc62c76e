-- ===== src/Store/Retention/Safety.antt =====
-- What RunRetentionCleanup deletes, and that it deletes all of it or nothing.
use pocket_settlement_monito.Prelude.{
  ℕ, ◌+◌, ◌*◌, ◌≤◌, ◌<◌, ◌≡◌, ◌⊎◌, inl, inr, length, select_idem, length-select-partition, arith,
  Bool-cases, ◌==◌, ==_iff,
}
use pocket_settlement_monito.Prelude.Words.{Int64, two63}
use pocket_settlement_monito.Prelude.Eq.{nat_eq, string_eq, pair_eq}
use pocket_settlement_monito.Prelude.Exec.{Exec, ok, err, store, ◌>>=◌}
use pocket_settlement_monito.Store.Models.{event_type_eq, Time}
use pocket_settlement_monito.Store.Tables.{Tables}
use pocket_settlement_monito.Store.Db.{
  Fails, Db, statement, Implements, Implements-ext, bind-Implements, statement-Implements,
  pure-Implements, transaction-IsAtomic,
}
use pocket_settlement_monito.Store.Retention.{
  Cutoffs, cutoffs, RetentionResult, no_rows, older, period_older, keep, deleted, keep_rows,
  of_old_settlement, delete_rewards, delete_settlements, delete_overservices, delete_reimbursements,
  delete_blocks, delete_hourly_service, delete_hourly_network, delete_daily_service,
  delete_daily_network, cleanup, run_retention_cleanup,
}

-- What is left, table by table.
pub purged : Cutoffs → Tables → Tables
purged c t = record {
  settlements = keep_rows (λ s. older c.raw s.block_timestamp) t.settlements;
  reward_distributions = keep_rows (of_old_settlement c.raw t) t.reward_distributions;
  overservice_events = keep_rows (λ o. older c.raw o.block_timestamp) t.overservice_events;
  reimbursement_events = keep_rows (λ r. older c.raw r.block_timestamp) t.reimbursement_events;
  processed_blocks = keep (λ b. older c.raw b.block_timestamp) t.processed_blocks;
  hourly_summaries_service = keep (λ r. period_older c.hourly r.key.0) t.hourly_summaries_service;
  hourly_summaries_network = keep (λ r. period_older c.hourly r.key) t.hourly_summaries_network;
  daily_summaries_service = keep (λ r. period_older c.daily r.key.0) t.daily_summaries_service;
  daily_summaries_network = keep (λ r. period_older c.daily r.key) t.daily_summaries_network;
}

-- How many rows each table loses.
pub losses : Cutoffs → Tables → RetentionResult
losses c t = record {
  reward_distributions_deleted = deleted (of_old_settlement c.raw t) t.reward_distributions.rows;
  settlements_deleted = deleted (λ s. older c.raw s.block_timestamp) t.settlements.rows;
  overservice_events_deleted =
      deleted (λ o. older c.raw o.block_timestamp) t.overservice_events.rows;
  reimbursement_events_deleted =
      deleted (λ r. older c.raw r.block_timestamp) t.reimbursement_events.rows;
  processed_blocks_deleted = deleted (λ b. older c.raw b.block_timestamp) t.processed_blocks;
  hourly_summary_service_deleted =
      deleted (λ r. period_older c.hourly r.key.0) t.hourly_summaries_service;
  hourly_summary_network_deleted =
      deleted (λ r. period_older c.hourly r.key) t.hourly_summaries_network;
  daily_summary_service_deleted =
      deleted (λ r. period_older c.daily r.key.0) t.daily_summaries_service;
  daily_summary_network_deleted =
      deleted (λ r. period_older c.daily r.key) t.daily_summaries_network;
}

counted :
    {A : Type 0} (f : Tables → ℕ × Tables) (k : ℕ → Exec Db A) {g : ℕ → Tables → A × Tables}
    → ((n : ℕ) → Implements (k n) (g n))
    → Implements (statement f >>= k) (λ t. g (f t).0 (f t).1)
counted f k {g} h = bind-Implements (statement f) k f g (statement-Implements f) h

cleanup-Implements : (c : Cutoffs) → Implements (cleanup c) (λ t. (losses c t, purged c t))
unfolding cleanup purged losses delete_rewards delete_settlements delete_overservices
    delete_reimbursements delete_blocks delete_hourly_service delete_hourly_network
    delete_daily_service delete_daily_network
cleanup-Implements c =
    Implements-ext (cleanup c) _ _ (λ t. simp select_idem)
      (counted (delete_rewards c.raw) _ λ n₁. counted (delete_settlements c.raw) _ λ n₂.
        counted (delete_overservices c.raw) _ λ n₃. counted (delete_reimbursements c.raw) _ λ n₄.
          counted (delete_blocks c.raw) _ λ n₅. counted (delete_hourly_service c.hourly) _ λ n₆.
            counted (delete_hourly_network c.hourly) _ λ n₇.
              counted (delete_daily_service c.daily) _
                λ n₈. counted (delete_daily_network c.daily) _ λ n₉. pure-Implements _)

-- With retention 0 nothing is done. Otherwise there are two outcomes: an error, which a failed statement
-- gives and which leaves every table as it was, or no error, and then the tables are exactly what the
-- cutoffs leave and the result counts what is gone.
pub run_retention_cleanup_atomic :
    (now : Time) (retention : Int64) (db : Db)
    → ((retention ≡ 0) × (run_retention_cleanup now retention db ≡ (ok no_rows, db)))
      ⊎ (let (r, after) = run_retention_cleanup now retention db in
          let c = cutoffs now retention in
          ((r ≡ err store) × (after.tables ≡ db.tables) × Fails db)
          ⊎ ((r ≡ ok (losses c db.tables)) × (after.tables ≡ purged c db.tables)))
unfolding run_retention_cleanup
run_retention_cleanup_atomic now retention db = elim (Bool-cases (retention == 0)) [
  | inl off ↦ inl ((==_iff retention 0).0 off, rw off)
  | inr on ↦ inr (
      rw on (
        (transaction-IsAtomic (cleanup (cutoffs now retention)) _
            (cleanup-Implements (cutoffs now retention))).at
          db))
]

-- As long as six retention periods fit an int64 of nanoseconds (some 292 years) and do not reach back
-- before year 1, the cutoffs lie one, three and six periods before now.
pub cutoffs_fit :
    (now : Time) (retention : Int64)
    → 0 < retention
    → 6 * retention ≤ two63
    → 6 * retention ≤ now
    → ((cutoffs now retention).raw + retention ≡ now)
      × ((cutoffs now retention).hourly + 3 * retention ≡ now)
      × ((cutoffs now retention).daily + 6 * retention ≡ now)
unfolding cutoffs
cutoffs_fit now retention pos fits reach = ground arith

-- A retention of which six periods do not fit (more than 48.7 years, and less than 97.4) wraps the
-- daily cutoff round: it lies after now.
pub cutoffs_wrap :
    (now : Time) (retention : Int64)
    → two63 < 6 * retention
    → 6 * retention < 2 * two63
    → now < (cutoffs now retention).daily
unfolding cutoffs
cutoffs_wrap now retention over under = ground arith

module _ (c : Cutoffs) (t : Tables) where
  -- For settlements, rewards and processed blocks: the number that a cleanup reports and the number that
  -- it leaves add up to what there was.
  pub losses_complete :
      ((losses c t).settlements_deleted + length (purged c t).settlements.rows
        ≡ length t.settlements.rows)
      × ((losses c t).reward_distributions_deleted + length (purged c t).reward_distributions.rows
          ≡ length t.reward_distributions.rows)
      × ((losses c t).processed_blocks_deleted + length (purged c t).processed_blocks
          ≡ length t.processed_blocks)
  unfolding losses purged
  losses_complete = (
    length-select-partition _ t.settlements.rows,
    length-select-partition _ t.reward_distributions.rows,
    length-select-partition _ t.processed_blocks,
  )

-- ===== src/Store/Insert/Atomic.antt =====
-- InsertBlockEvents writes the whole block or nothing.
use pocket_settlement_monito.Prelude.{ℕ, ◌+◌, ◌≡◌, Option, none, some, List, [], ◌∷◌, ◌⊎◌}
use pocket_settlement_monito.Prelude.Exec.{Exec, ok, err, store, ◌>>=◌, for_each}
use pocket_settlement_monito.Store.Models.{
  Time, Settlement, RewardDistribution, OverserviceEvent, ReimbursementEvent, ProcessedBlock,
}
use pocket_settlement_monito.Store.Tables.{Tables}
use pocket_settlement_monito.Store.Db.{
  Db, Fails, statement, execute, no_write, Implements, in_turn, statement-Implements,
  pure-Implements, bind-Implements, for_each-Implements, transaction-IsAtomic, execute-Implements,
  then-Implements,
}
use pocket_settlement_monito.Store.Insert.{
  RewardMap, rewards_at, put_settlement, put_reward, put_overservice, put_reimbursement, put_block,
  insert_rewards, insert_settlements, insert_block_events, write_rewards, write_settlements,
  write_block,
}

insert_rewards-Implements :
    (id : Option ℕ) (rds : List RewardDistribution)
    → Implements (insert_rewards id rds) (λ t. (tt, write_rewards id rds t))
unfolding insert_rewards write_rewards
insert_rewards-Implements none rds = pure-Implements tt
insert_rewards-Implements (some id) rds =
    for_each-Implements (λ rd. execute (put_reward id rd)) (put_reward id) rds
      (λ rd. execute-Implements (put_reward id rd))

insert_settlements-Implements :
    (ts : Time) (rewards : RewardMap) (i : ℕ) (ss : List Settlement)
    → Implements
        (insert_settlements ts rewards i ss)
        (λ t. (tt, write_settlements ts rewards i ss t))
unfolding insert_settlements write_settlements
insert_settlements-Implements ts rewards i [] = pure-Implements tt
insert_settlements-Implements ts rewards i (s ∷ rest) =
    bind-Implements (statement (put_settlement ts s)) _ (put_settlement ts s)
      (λ id t.
        (tt, write_settlements ts rewards (i + 1) rest (write_rewards id (rewards_at i rewards) t)))
      (statement-Implements (put_settlement ts s))
      (λ id.
        then-Implements (insert_rewards id (rewards_at i rewards))
          (insert_settlements ts rewards (i + 1) rest) (write_rewards id (rewards_at i rewards))
          (write_settlements ts rewards (i + 1) rest)
          (insert_rewards-Implements id (rewards_at i rewards))
          (insert_settlements-Implements ts rewards (i + 1) rest))

-- InsertBlockEvents has two outcomes: an error, which a failed statement gives and which leaves every
-- table as it was, or no error and all that the block writes.
pub insert_block_events_atomic :
    (b : ProcessedBlock) (ss : List Settlement) (rewards : RewardMap) (os : List OverserviceEvent)
    (rs : List ReimbursementEvent) (db : Db)
    → let (r, after) = insert_block_events b ss rewards os rs db in
      ((r ≡ err store) × (after.tables ≡ db.tables) × Fails db)
      ⊎ ((r ≡ ok tt) × (after.tables ≡ write_block b ss rewards os rs db.tables))
unfolding insert_block_events write_block
insert_block_events_atomic b ss rewards os rs db =
    (transaction-IsAtomic _ (λ t. (tt, write_block b ss rewards os rs t))
        (prepared (prepared (prepared (prepared events))))).at
      db
  where
    ts : Time
    ts = b.block_timestamp

    events :
        Implements
          (insert_settlements ts rewards 0 ss >>= λ _.
            for_each (λ o. execute (put_overservice ts o)) os >>= λ _.
            for_each (λ r. execute (put_reimbursement ts r)) rs >>= λ _. execute (put_block b))
          (λ t. (tt, write_block b ss rewards os rs t))
    events =
        then-Implements _ _ (write_settlements ts rewards 0 ss) _
          (insert_settlements-Implements ts rewards 0 ss)
          (then-Implements _ _ (in_turn (put_overservice ts) os) _
            (for_each-Implements _ (put_overservice ts) os
              (λ o. execute-Implements (put_overservice ts o)))
            (then-Implements _ _ (in_turn (put_reimbursement ts) rs) (put_block b)
              (for_each-Implements _ (put_reimbursement ts) rs
                (λ r. execute-Implements (put_reimbursement ts r)))
              (execute-Implements (put_block b))))

    prepared :
        {k : Exec Db Unit} {f : Tables → Tables}
        → Implements k (λ t. (tt, f t))
        → Implements (no_write >>= λ _. k) (λ t. (tt, f t))
    prepared {k} {f} h = then-Implements no_write k (λ t. t) f (execute-Implements (λ t. t)) h

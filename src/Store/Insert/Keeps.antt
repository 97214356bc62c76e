-- ===== src/Store/Insert/Keeps.antt =====
-- InsertBlockEvents keeps the tables well formed.
use pocket_settlement_monito.Prelude.{
  ℕ, ◌+◌, ◌≡◌, refl, true, Option, none, some, List, [], ◌∷◌, inl, inr,
}
use pocket_settlement_monito.Prelude.Eq.{nat_eq}
use pocket_settlement_monito.Store.Models.{
  Time, Settlement, RewardDistribution, OverserviceEvent, ReimbursementEvent, ProcessedBlock,
}
use pocket_settlement_monito.Store.Tables.{Tables, taken}
use pocket_settlement_monito.Store.Db.{Db, in_turn, in_turn_invariant}
use pocket_settlement_monito.Store.WellFormed.{
  IsWellFormed, settlement_id, put_settlement-IsWellFormed, put_settlement_id,
  put_reward-IsWellFormed, put_overservice-IsWellFormed, put_reimbursement-IsWellFormed,
  put_block-IsWellFormed,
}
use pocket_settlement_monito.Store.Insert.{
  RewardMap, rewards_at, put_settlement, put_reward, put_overservice, put_reimbursement,
  write_rewards, write_settlements, write_block, insert_block_events,
}
use pocket_settlement_monito.Store.Insert.Atomic.{insert_block_events_atomic}

-- The settlement stays there while its rewards are put.
rewards-IsWellFormed :
    (id : ℕ) (rds : List RewardDistribution) (t : Tables)
    → taken settlement_id id t.settlements.rows ≡ true
    → IsWellFormed t
    → IsWellFormed (in_turn (put_reward id) rds t)
unfolding put_reward
rewards-IsWellFormed id [] t h w = w
rewards-IsWellFormed id (rd ∷ rds) t h w =
    rewards-IsWellFormed id rds (put_reward id rd t) h (put_reward-IsWellFormed id rd t h w)

write_rewards-IsWellFormed :
    (id : Option ℕ) (rds : List RewardDistribution) (t : Tables)
    → ((i : ℕ) → id ≡ some i → taken settlement_id i t.settlements.rows ≡ true)
    → IsWellFormed t
    → IsWellFormed (write_rewards id rds t)
unfolding write_rewards
write_rewards-IsWellFormed none rds t h w = w
write_rewards-IsWellFormed (some id) rds t h w = rewards-IsWellFormed id rds t (h id refl) w

write_settlements-IsWellFormed :
    (ts : Time) (rewards : RewardMap) (i : ℕ) (ss : List Settlement) (t : Tables)
    → IsWellFormed t
    → IsWellFormed (write_settlements ts rewards i ss t)
unfolding write_settlements
write_settlements-IsWellFormed ts rewards i [] t w = w
write_settlements-IsWellFormed ts rewards i (s ∷ ss) t w =
    let (id, t') = put_settlement ts s t in
    write_settlements-IsWellFormed ts rewards (i + 1) ss
      (write_rewards id (rewards_at i rewards) t')
      (write_rewards-IsWellFormed id (rewards_at i rewards) t' (put_settlement_id ts s t)
        (put_settlement-IsWellFormed ts s t w))

write_block-IsWellFormed :
    (b : ProcessedBlock) (ss : List Settlement) (rewards : RewardMap) (os : List OverserviceEvent)
    (rs : List ReimbursementEvent) (t : Tables)
    → IsWellFormed t
    → IsWellFormed (write_block b ss rewards os rs t)
unfolding write_block
write_block-IsWellFormed b ss rewards os rs t w = put_block-IsWellFormed b _ (
    in_turn_invariant (put_reimbursement b.block_timestamp) IsWellFormed
      (put_reimbursement-IsWellFormed b.block_timestamp) rs _
      (in_turn_invariant (put_overservice b.block_timestamp) IsWellFormed
        (put_overservice-IsWellFormed b.block_timestamp) os _
        (write_settlements-IsWellFormed b.block_timestamp rewards 0 ss t w)))

-- An insertion, failed or not, keeps the tables well formed: no two rows share the columns of a UNIQUE
-- constraint, settlement ids are distinct, and every reward refers to a settlement that exists.
pub insert_block_events-IsWellFormed :
    (b : ProcessedBlock) (ss : List Settlement) (rewards : RewardMap) (os : List OverserviceEvent)
    (rs : List ReimbursementEvent) (db : Db)
    → IsWellFormed db.tables
    → IsWellFormed (insert_block_events b ss rewards os rs db).1.tables
insert_block_events-IsWellFormed b ss rewards os rs db w =
    elim (insert_block_events_atomic b ss rewards os rs db) [
      | inl failed ↦ rw failed.1 w
      | inr done ↦ rw done.1 (write_block-IsWellFormed b ss rewards os rs db.tables w)
    ]

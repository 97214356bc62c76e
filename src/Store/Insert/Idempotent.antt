-- ===== src/Store/Insert/Idempotent.antt =====
-- A block that is written again changes nothing.
use pocket_settlement_monito.Prelude.{
  ℕ, ◌+◌, ◌≡◌, refl, true, Option, none, some, List, [], ◌∷◌, All,
}
use pocket_settlement_monito.Prelude.Eq.{nat_eq, string_eq, pair_eq}
use pocket_settlement_monito.Store.Models.{
  event_type_eq, Time, Settlement, RewardDistribution, OverserviceEvent, ReimbursementEvent,
  ProcessedBlock,
}
use pocket_settlement_monito.Store.Tables.{
  Tables, taken, settlement_key, overservice_key, reimbursement_key, block_key,
}
use pocket_settlement_monito.Store.Tables.Laws.{
  insert_or_ignore-taken, insert_or_ignore_keeps, insert_or_ignore_self, insert_keyed-taken,
  insert_keyed_self,
}
use pocket_settlement_monito.Store.Db.{Db, in_turn, in_turn_frame}
use pocket_settlement_monito.Store.Insert.{
  RewardMap, rewards_at, settlement_row, overservice_row, reimbursement_row, block_row,
  put_settlement, put_reward, put_overservice, put_reimbursement, put_block, write_rewards,
  write_settlements, write_block,
}

-- A loop of operations, each of which makes `P x` hold, keeps `P y`, and does nothing where `P x`
-- holds already.
module _ {A : Type 0} (f : A → Tables → Tables) (P : A → Tables → Type 0)
    (keeps : (x y : A) (t : Tables) → P y t → P y (f x t)) where
  in_turn_keeps : (xs : List A) (y : A) (t : Tables) → P y t → P y (in_turn f xs t)
  in_turn_keeps [] y t h = h
  in_turn_keeps (x ∷ xs) y t h = in_turn_keeps xs y (f x t) (keeps x y t h)

  in_turn_establishes :
      ((x : A) (t : Tables) → P x (f x t))
      → (xs : List A) (t : Tables) → All (λ x. P x (in_turn f xs t)) xs
  in_turn_establishes self [] t = tt
  in_turn_establishes self (x ∷ xs) t =
      (in_turn_keeps xs x (f x t) (self x t), in_turn_establishes self xs (f x t))

  in_turn_noop :
      ((x : A) (t : Tables) → P x t → f x t ≡ t)
      → (xs : List A) (t : Tables) → All (λ x. P x t) xs
      → in_turn f xs t ≡ t
  in_turn_noop noop [] t h = refl
  in_turn_noop noop (x ∷ xs) t h = rw (noop x t h.0) (in_turn_noop noop xs t h.1)

abbrev HasSettlement : Settlement → Tables → Type 0
HasSettlement s t = taken settlement_key (settlement_key s) t.settlements.rows ≡ true

abbrev HasOverservice : OverserviceEvent → Tables → Type 0
HasOverservice o t = taken overservice_key (overservice_key o) t.overservice_events.rows ≡ true

abbrev HasReimbursement : ReimbursementEvent → Tables → Type 0
HasReimbursement r t =
    taken reimbursement_key (reimbursement_key r) t.reimbursement_events.rows ≡ true

abbrev HasBlock : ProcessedBlock → Tables → Type 0
HasBlock b t = taken block_key (block_key b) t.processed_blocks ≡ true

-- The rewards go to a table of their own.
write_rewards-settlements :
    (id : Option ℕ) (rds : List RewardDistribution) (t : Tables)
    → (write_rewards id rds t).settlements ≡ t.settlements
unfolding write_rewards put_reward
write_rewards-settlements none rds t = refl
write_rewards-settlements (some id) rds t =
    in_turn_frame (put_reward id) (λ u. u.settlements) (λ rd u. refl) rds t

module _ (ts : Time) where
  overservice_self : (o : OverserviceEvent) (t : Tables) → HasOverservice o (put_overservice ts o t)
  unfolding put_overservice
  overservice_self o t =
      insert_or_ignore_self overservice_key (overservice_row ts o) t.overservice_events

  overservice_keeps :
      (o p : OverserviceEvent) (t : Tables)
      → HasOverservice p t
      → HasOverservice p (put_overservice ts o t)
  unfolding put_overservice
  overservice_keeps o p t = insert_or_ignore_keeps overservice_key _ t.overservice_events _

  overservice_noop :
      (o : OverserviceEvent) (t : Tables) → HasOverservice o t → put_overservice ts o t ≡ t
  unfolding put_overservice
  overservice_noop o t h =
      rw (insert_or_ignore-taken overservice_key (overservice_row ts o) t.overservice_events h)

  reimbursement_self :
      (r : ReimbursementEvent) (t : Tables) → HasReimbursement r (put_reimbursement ts r t)
  unfolding put_reimbursement
  reimbursement_self r t =
      insert_or_ignore_self reimbursement_key (reimbursement_row ts r) t.reimbursement_events

  reimbursement_keeps :
      (r p : ReimbursementEvent) (t : Tables)
      → HasReimbursement p t
      → HasReimbursement p (put_reimbursement ts r t)
  unfolding put_reimbursement
  reimbursement_keeps r p t = insert_or_ignore_keeps reimbursement_key _ t.reimbursement_events _

  reimbursement_noop :
      (r : ReimbursementEvent) (t : Tables) → HasReimbursement r t → put_reimbursement ts r t ≡ t
  unfolding put_reimbursement
  reimbursement_noop r t h =
      rw
        (insert_or_ignore-taken reimbursement_key (reimbursement_row ts r) t.reimbursement_events h)

  settlement_self : (s : Settlement) (t : Tables) → HasSettlement s (put_settlement ts s t).1
  unfolding put_settlement
  settlement_self s t = insert_or_ignore_self settlement_key (settlement_row ts s) t.settlements

  settlement_keeps :
      (s p : Settlement) (t : Tables)
      → HasSettlement p t
      → HasSettlement p (put_settlement ts s t).1
  unfolding put_settlement
  settlement_keeps s p t = insert_or_ignore_keeps settlement_key _ t.settlements _

  settlement_noop :
      (s : Settlement) (t : Tables) → HasSettlement s t → put_settlement ts s t ≡ (none, t)
  unfolding put_settlement
  settlement_noop s t h =
      rw (insert_or_ignore-taken settlement_key (settlement_row ts s) t.settlements h)

module _ (ts : Time) (rewards : RewardMap) where
  settlements_keep :
      (i : ℕ) (ss : List Settlement) (p : Settlement) (t : Tables)
      → HasSettlement p t
      → HasSettlement p (write_settlements ts rewards i ss t)
  unfolding write_settlements
  settlements_keep i [] p t h = h
  settlements_keep i (s ∷ ss) p t h =
      let (id, t') = put_settlement ts s t in
      settlements_keep (i + 1) ss p (write_rewards id (rewards_at i rewards) t')
        (rw (write_rewards-settlements id (rewards_at i rewards) t') (settlement_keeps ts s p t h))

  settlements_establish :
      (i : ℕ) (ss : List Settlement) (t : Tables)
      → All (λ s. HasSettlement s (write_settlements ts rewards i ss t)) ss
  unfolding write_settlements
  settlements_establish i [] t = tt
  settlements_establish i (s ∷ ss) t =
      let (id, t') = put_settlement ts s t in
      let next = write_rewards id (rewards_at i rewards) t' in
      (
        settlements_keep (i + 1) ss s next
            (rw (write_rewards-settlements id (rewards_at i rewards) t') (settlement_self ts s t)),
        settlements_establish (i + 1) ss next,
      )

  settlements_noop :
      (i : ℕ) (ss : List Settlement) (t : Tables)
      → All (λ s. HasSettlement s t) ss
      → write_settlements ts rewards i ss t ≡ t
  unfolding write_settlements write_rewards
  settlements_noop i [] t h = refl
  settlements_noop i (s ∷ ss) t h =
      rw (settlement_noop ts s t h.0) (settlements_noop (i + 1) ss t h.1)

module _ (b : ProcessedBlock) (ss : List Settlement) (rewards : RewardMap)
    (os : List OverserviceEvent) (rs : List ReimbursementEvent) where
  -- All rows of the block are there.
  record HasAll (t : Tables) : Type 0 where
    has_settlements : All (λ s. HasSettlement s t) ss
    has_overservices : All (λ o. HasOverservice o t) os
    has_reimbursements : All (λ r. HasReimbursement r t) rs
    has_block : HasBlock b t

  write_block_noop :
      (b' : ProcessedBlock) (t : Tables)
      → b'.height ≡ b.height
      → HasAll t
      → write_block b' ss rewards os rs t ≡ t
  unfolding write_block put_block
  write_block_noop b' t same h =
      rw (settlements_noop b'.block_timestamp rewards 0 ss t h.has_settlements) (
        rw
          (in_turn_noop (put_overservice b'.block_timestamp) HasOverservice
            (overservice_keeps b'.block_timestamp) (overservice_noop b'.block_timestamp) os t
            h.has_overservices)
          (rw
            (in_turn_noop (put_reimbursement b'.block_timestamp) HasReimbursement
              (reimbursement_keeps b'.block_timestamp) (reimbursement_noop b'.block_timestamp) rs t
              h.has_reimbursements)
            (rw
              (insert_keyed-taken block_key (block_row b') t.processed_blocks (rw same h.has_block))
              refl)))

  write_block_establishes : (t : Tables) → HasAll (write_block b ss rewards os rs t)
  unfolding write_block put_block put_reimbursement put_overservice
  write_block_establishes t = record {
    has_settlements =
        rw (in_turn_frame (put_reimbursement ts) (λ u. u.settlements) (λ _ _. refl) rs t₂) (
          rw (in_turn_frame (put_overservice ts) (λ u. u.settlements) (λ _ _. refl) os t₁)
            (settlements_establish ts rewards 0 ss t));
    has_overservices =
        rw (in_turn_frame (put_reimbursement ts) (λ u. u.overservice_events) (λ _ _. refl) rs t₂) (
          in_turn_establishes (put_overservice ts) HasOverservice (overservice_keeps ts)
            (overservice_self ts) os t₁);
    has_reimbursements =
        in_turn_establishes (put_reimbursement ts) HasReimbursement (reimbursement_keeps ts)
          (reimbursement_self ts) rs t₂;
    has_block =
        insert_keyed_self block_key (block_row b)
          (in_turn (put_reimbursement ts) rs t₂).processed_blocks;
  }
    where
      ts : Time
      ts = b.block_timestamp

      t₁ : Tables
      t₁ = write_settlements ts rewards 0 ss t

      t₂ : Tables
      t₂ = in_turn (put_overservice ts) os t₁

  -- Writing a block's events a second time, beside any block record of that height, changes no table: no
  -- row is added or altered and no id is used up, whatever the tables held before, and also where rows of
  -- the block are equal in their keys.
  pub write_block_idem :
      (b' : ProcessedBlock) (t : Tables)
      → b'.height ≡ b.height
      → write_block b' ss rewards os rs (write_block b ss rewards os rs t)
        ≡ write_block b ss rewards os rs t
  write_block_idem b' t same = write_block_noop b' _ same (write_block_establishes t)

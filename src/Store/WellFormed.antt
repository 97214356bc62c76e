-- ===== src/Store/WellFormed.antt =====
-- What always holds of the tables: the UNIQUE constraints of store/schema.sql, ids that are given once,
-- and the foreign key of reward_distributions.
use pocket_settlement_monito.Prelude.{
  ℕ, ◌+◌, ◌≤◌, ◌<◌, ◌≡◌, refl, true, false, some, List, [], ◌∷◌, ◌++◌, All, All-append, All-imp,
  any-append_left, Bool-cases, inl, inr, arith, subst,
}
use pocket_settlement_monito.Prelude.Eq.{nat_eq, string_eq, pair_eq}
use pocket_settlement_monito.Store.Models.{
  event_type_eq, Time, Settlement, RewardDistribution, OverserviceEvent, ReimbursementEvent,
  ProcessedBlock,
}
use pocket_settlement_monito.Store.Tables.{
  Table, Tables, empty_tables, taken, settlement_key, reward_key, overservice_key,
  reimbursement_key, block_key,
}
use pocket_settlement_monito.Store.Tables.Laws.{
  KeysDistinct, KeysDistinct-append, taken-append_self, insert_or_ignore-taken,
  insert_or_ignore_new, insert_or_ignore-KeysDistinct, insert_keyed-KeysDistinct,
}
use pocket_settlement_monito.Store.Insert.{
  settlement_row, reward_row, overservice_row, reimbursement_row, block_row, put_settlement,
  put_reward, put_overservice, put_reimbursement, put_block,
}

abbrev pub settlement_id : Settlement → ℕ
settlement_id s = s.id

-- The settlement that a reward refers to exists.
abbrev pub HasParent : List Settlement → RewardDistribution → Type 0
HasParent rows rd = taken settlement_id rd.settlement_id rows ≡ true

pub record IsWellFormed (t : Tables) : Type 0 where
  pub settlement_keys : KeysDistinct settlement_key t.settlements.rows
  pub settlement_ids : KeysDistinct settlement_id t.settlements.rows
  pub ids_given : All (λ s. s.id ≤ t.settlements.last_id) t.settlements.rows
  pub reward_keys : KeysDistinct reward_key t.reward_distributions.rows
  pub parents : All (HasParent t.settlements.rows) t.reward_distributions.rows
  pub overservice_keys : KeysDistinct overservice_key t.overservice_events.rows
  pub reimbursement_keys : KeysDistinct reimbursement_key t.reimbursement_events.rows
  pub block_keys : KeysDistinct block_key t.processed_blocks

pub empty-IsWellFormed : IsWellFormed empty_tables
empty-IsWellFormed = record {
  settlement_keys = tt;
  settlement_ids = tt;
  ids_given = tt;
  reward_keys = tt;
  parents = tt;
  overservice_keys = tt;
  reimbursement_keys = tt;
  block_keys = tt;
}

-- An id above all ids is free.
free_id :
    (n m : ℕ) (rows : List Settlement)
    → All (λ s. s.id ≤ n) rows
    → n < m
    → taken settlement_id m rows ≡ false
free_id n m [] h lt = refl
free_id n m (s ∷ rows) h lt = ground (arith, free_id n m rows h.1)

module _ (ts : Time) where
  pub put_settlement-IsWellFormed :
      (s : Settlement) (t : Tables) → IsWellFormed t → IsWellFormed (put_settlement ts s t).1
  unfolding put_settlement
  put_settlement-IsWellFormed s t w =
      elim (Bool-cases (taken settlement_key (settlement_key s) t.settlements.rows)) [
        | inl old ↦
            rw (insert_or_ignore-taken settlement_key (settlement_row ts s) t.settlements old) w
        | inr new ↦
            rw (insert_or_ignore_new settlement_key (settlement_row ts s) t.settlements new)
              (added new)
      ]
    where
      row : Settlement
      row = settlement_row ts s (t.settlements.last_id + 1)

      table : Table Settlement
      table = record { rows = t.settlements.rows ++ row ∷ []; last_id = t.settlements.last_id + 1 }

      added :
          taken settlement_key (settlement_key s) t.settlements.rows ≡ false
          → IsWellFormed (record t { settlements = table })
      added new = record {
        settlement_keys =
            KeysDistinct-append settlement_key t.settlements.rows row w.settlement_keys new;
        settlement_ids =
            KeysDistinct-append settlement_id t.settlements.rows row w.settlement_ids
              (free_id t.settlements.last_id row.id t.settlements.rows w.ids_given (omega arith));
        ids_given =
            All-append _ t.settlements.rows (row ∷ [])
              (All-imp _ _ t.settlements.rows (λ x h. omega arith) w.ids_given) (omega arith);
        reward_keys = w.reward_keys;
        parents =
            All-imp _ _ t.reward_distributions.rows
              (λ rd h. any-append_left _ t.settlements.rows (row ∷ []) h) w.parents;
        overservice_keys = w.overservice_keys;
        reimbursement_keys = w.reimbursement_keys;
        block_keys = w.block_keys;
      }

  -- The id that the settlement's row got is that of a row.
  pub put_settlement_id :
      (s : Settlement) (t : Tables) (id : ℕ)
      → (put_settlement ts s t).0 ≡ some id
      → taken settlement_id id (put_settlement ts s t).1.settlements.rows ≡ true
  unfolding put_settlement
  put_settlement_id s t id h =
      elim (Bool-cases (taken settlement_key (settlement_key s) t.settlements.rows)) [
        | inl old ↦
            cc (h, insert_or_ignore-taken settlement_key (settlement_row ts s) t.settlements old)
        | inr new ↦
            let e = insert_or_ignore_new settlement_key (settlement_row ts s) t.settlements new in
            rw e (
              subst (λ i. taken settlement_id i (t.settlements.rows ++ row ∷ []) ≡ true)
                (same (t.settlements.last_id + 1) id (cc (h, e)))
                (taken-append_self settlement_id row t.settlements.rows))
      ]
    where
      row : Settlement
      row = settlement_row ts s (t.settlements.last_id + 1)

      same : (a b : ℕ) → some a ≡ some b → a ≡ b
      same a b e = cc

  pub put_overservice-IsWellFormed :
      (o : OverserviceEvent) (t : Tables) → IsWellFormed t → IsWellFormed (put_overservice ts o t)
  unfolding put_overservice
  put_overservice-IsWellFormed o t w = record {
    settlement_keys = w.settlement_keys;
    settlement_ids = w.settlement_ids;
    ids_given = w.ids_given;
    reward_keys = w.reward_keys;
    parents = w.parents;
    overservice_keys =
        insert_or_ignore-KeysDistinct overservice_key (overservice_row ts o) t.overservice_events
          w.overservice_keys;
    reimbursement_keys = w.reimbursement_keys;
    block_keys = w.block_keys;
  }

  pub put_reimbursement-IsWellFormed :
      (r : ReimbursementEvent) (t : Tables)
      → IsWellFormed t
      → IsWellFormed (put_reimbursement ts r t)
  unfolding put_reimbursement
  put_reimbursement-IsWellFormed r t w = record {
    settlement_keys = w.settlement_keys;
    settlement_ids = w.settlement_ids;
    ids_given = w.ids_given;
    reward_keys = w.reward_keys;
    parents = w.parents;
    overservice_keys = w.overservice_keys;
    reimbursement_keys =
        insert_or_ignore-KeysDistinct reimbursement_key (reimbursement_row ts r)
          t.reimbursement_events w.reimbursement_keys;
    block_keys = w.block_keys;
  }

-- A reward is put for a settlement that is there.
pub put_reward-IsWellFormed :
    (id : ℕ) (rd : RewardDistribution) (t : Tables)
    → taken settlement_id id t.settlements.rows ≡ true
    → IsWellFormed t
    → IsWellFormed (put_reward id rd t)
unfolding put_reward
put_reward-IsWellFormed id rd t h w =
    elim (Bool-cases (taken reward_key (id, rd.address) t.reward_distributions.rows)) [
      | inl old ↦
          rw (insert_or_ignore-taken reward_key (reward_row id rd) t.reward_distributions old) w
      | inr new ↦
          rw (insert_or_ignore_new reward_key (reward_row id rd) t.reward_distributions new)
            (record {
              settlement_keys = w.settlement_keys;
              settlement_ids = w.settlement_ids;
              ids_given = w.ids_given;
              reward_keys =
                  KeysDistinct-append reward_key t.reward_distributions.rows
                    (reward_row id rd (t.reward_distributions.last_id + 1)) w.reward_keys new;
              parents =
                  All-append (HasParent t.settlements.rows) t.reward_distributions.rows
                    (reward_row id rd (t.reward_distributions.last_id + 1) ∷ []) w.parents (h, tt);
              overservice_keys = w.overservice_keys;
              reimbursement_keys = w.reimbursement_keys;
              block_keys = w.block_keys;
            })
    ]

pub put_block-IsWellFormed :
    (b : ProcessedBlock) (t : Tables) → IsWellFormed t → IsWellFormed (put_block b t)
unfolding put_block
put_block-IsWellFormed b t w = record {
  settlement_keys = w.settlement_keys;
  settlement_ids = w.settlement_ids;
  ids_given = w.ids_given;
  reward_keys = w.reward_keys;
  parents = w.parents;
  overservice_keys = w.overservice_keys;
  reimbursement_keys = w.reimbursement_keys;
  block_keys = insert_keyed-KeysDistinct block_key (block_row b) t.processed_blocks w.block_keys;
}

-- ===== src/Processor/Aggregate/Order.antt =====
-- The contribution does not depend on the order of the rows that a SELECT gives.
use pocket_settlement_monito.Prelude.{
  ◌≡◌, refl, ap, ◌∙◌, List, [], ◌∷◌, Bool, if◌then◌else◌, select, fold, arith, Bool-cases, inl, inr,
}
use pocket_settlement_monito.Store.Models.{
  EventType, settled, expired, slashed, discarded, Settlement, OverserviceEvent, ReimbursementEvent,
}
use pocket_settlement_monito.Store.Period.{before_row, insert_row, order_rows}
use pocket_settlement_monito.Processor.Aggregate.{
  BlockContribution, nothing, add_typed, add_settlement, aggregate_block,
}

add_typed_comm :
    (e f : EventType) (s r : Settlement) (bc : BlockContribution)
    → add_typed f r (add_typed e s bc) ≡ add_typed e s (add_typed f r bc)
unfolding add_typed
add_typed_comm settled settled s r bc = ground arith
add_typed_comm settled _ s r bc = ground arith
add_typed_comm expired settled s r bc = ground arith
add_typed_comm expired _ s r bc = ground arith
add_typed_comm slashed settled s r bc = ground arith
add_typed_comm slashed _ s r bc = ground arith
add_typed_comm discarded settled s r bc = ground arith
add_typed_comm discarded _ s r bc = ground arith

add_settlement_comm :
    (s r : Settlement) (bc : BlockContribution)
    → add_settlement (add_settlement bc s) r ≡ add_settlement (add_settlement bc r) s
unfolding add_settlement
add_settlement_comm s r bc = add_typed_comm s.event_type r.event_type s r bc

module _ {S : Type 0} (f : S → Settlement → S)
    (comm : (s r : Settlement) (b : S) → f (f b s) r ≡ f (f b r) s) where
  fold-insert_row :
      (s : Settlement) (rows : List Settlement) (b : S)
      → fold f b (insert_row s rows) ≡ fold f b (s ∷ rows)
  unfolding insert_row
  fold-insert_row s [] b = refl
  fold-insert_row s (r ∷ rows) b = elim (Bool-cases (before_row s r)) [
    | inl first ↦ rw first
    | inr later ↦ rw later (fold-insert_row s rows (f b r) ∙ ap (λ c. fold f c rows) (comm r s b))
  ]

  fold-order_rows : (rows : List Settlement) (b : S) → fold f b (order_rows rows) ≡ fold f b rows
  unfolding order_rows
  fold-order_rows [] b = refl
  fold-order_rows (s ∷ rows) b =
      fold-insert_row s (order_rows rows) b ∙ fold-order_rows rows (f b s)

module _ (q : Settlement → Bool) where
  abbrev add_selected : BlockContribution → Settlement → BlockContribution
  add_selected bc s = if q s then add_settlement bc s else bc

  fold-select :
      (rows : List Settlement) (bc : BlockContribution)
      → fold add_settlement bc (select q rows) ≡ fold add_selected bc rows
  fold-select [] bc = refl
  fold-select (s ∷ rows) bc = elim (Bool-cases (q s)) [
    | inl kept ↦ rw kept (fold-select rows (add_settlement bc s))
    | inr dropped ↦ rw dropped (fold-select rows bc)
  ]

  add_selected_comm :
      (s r : Settlement) (bc : BlockContribution)
      → add_selected (add_selected bc s) r ≡ add_selected (add_selected bc r) s
  add_selected_comm s r bc = ground (arith, add_settlement_comm s r bc)

  -- Also where only some of the rows are kept.
  pub aggregate_block-order_rows :
      (ss : List Settlement) (os : List OverserviceEvent) (rs : List ReimbursementEvent)
      → aggregate_block (select q (order_rows ss)) os rs ≡ aggregate_block (select q ss) os rs
  unfolding aggregate_block
  aggregate_block-order_rows ss os rs = rw (
    fold-select (order_rows ss) nothing,
    fold-order_rows add_selected add_selected_comm ss nothing,
    fold-select ss nothing,
  )

-- ===== src/Processor/Aggregate/Given.antt =====
-- The contribution is the same for a block's structs and for the rows that they become.
use pocket_settlement_monito.Prelude.{◌≡◌, refl, ap, ◌∙◌, List, [], ◌∷◌, map, fold, length, arith}
use pocket_settlement_monito.Store.Models.{
  EventType, settled, expired, slashed, discarded, Settlement, OverserviceEvent, ReimbursementEvent,
}
use pocket_settlement_monito.Processor.Aggregate.{
  BlockContribution, nothing, add_typed, add_settlement, add_reimbursement, aggregate_block,
}

-- What of a row the INSERT takes from the struct: an id is given to it, and its time is the block's, in
-- whole seconds.
abbrev pub given_settlement : Settlement → Settlement
given_settlement s = record s { id = 0; block_timestamp = 0 }

abbrev pub given_overservice : OverserviceEvent → OverserviceEvent
given_overservice o = record o { id = 0; block_timestamp = 0 }

abbrev pub given_reimbursement : ReimbursementEvent → ReimbursementEvent
given_reimbursement r = record r { id = 0; block_timestamp = 0 }

-- Neither the ids nor the times are read.
add_typed-given :
    (e : EventType) (s : Settlement) (bc : BlockContribution)
    → add_typed e (given_settlement s) bc ≡ add_typed e s bc
unfolding add_typed
add_typed-given settled s bc = refl
add_typed-given expired s bc = refl
add_typed-given slashed s bc = refl
add_typed-given discarded s bc = refl

fold-given_settlement :
    (ss : List Settlement) (bc : BlockContribution)
    → fold add_settlement bc (map given_settlement ss) ≡ fold add_settlement bc ss
unfolding add_settlement
fold-given_settlement [] bc = refl
fold-given_settlement (s ∷ ss) bc =
    ap (λ b. fold add_settlement b (map given_settlement ss)) (add_typed-given s.event_type s bc)
    ∙ fold-given_settlement ss (add_settlement bc s)

fold-given_reimbursement :
    (rs : List ReimbursementEvent) (bc : BlockContribution)
    → fold add_reimbursement bc (map given_reimbursement rs) ≡ fold add_reimbursement bc rs
unfolding add_reimbursement
fold-given_reimbursement [] bc = refl
fold-given_reimbursement (r ∷ rs) bc = fold-given_reimbursement rs (add_reimbursement bc r)

length-map : {A B : Type 0} (f : A → B) (xs : List A) → length (map f xs) ≡ length xs
length-map f [] = refl
length-map f (x ∷ xs) = omega (arith, length-map f xs)

pub aggregate_block-given :
    (ss : List Settlement) (os : List OverserviceEvent) (rs : List ReimbursementEvent)
    → aggregate_block
        (map given_settlement ss)
        (map given_overservice os)
        (map given_reimbursement rs)
      ≡ aggregate_block ss os rs
unfolding aggregate_block
aggregate_block-given ss os rs =
    rw (fold-given_settlement ss nothing, length-map given_overservice os)
      (fold-given_reimbursement rs _)

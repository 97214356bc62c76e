-- ===== src/Processor/Aggregate/Additive.antt =====
-- The contribution of several blocks together is the sum of their contributions.
use pocket_settlement_monito.Prelude.{
  ◌%◌, ◌<◌, ◌≡◌, refl, sym, ap, ◌∙◌, List, [], ◌∷◌, ◌++◌, fold, fold-append, length, length-append,
  arith,
}
use pocket_settlement_monito.Prelude.Words.{Int64, two64}
use pocket_settlement_monito.Store.Models.{
  EventType, settled, Settlement, OverserviceEvent, ReimbursementEvent, Totals, zero_totals,
}
use pocket_settlement_monito.Processor.Aggregate.{
  BlockContribution, nothing, add_typed, add_settlement, add_reimbursement, aggregate_block, plus,
  accumulate, totals_of,
}

add_typed-plus :
    (e : EventType) (s : Settlement) (a b : BlockContribution)
    → add_typed e s (plus a b) ≡ plus a (add_typed e s b)
unfolding add_typed plus
add_typed-plus settled s a b = ground arith
add_typed-plus _ s a b = ground arith

add_settlement-plus :
    (s : Settlement) (a b : BlockContribution)
    → add_settlement (plus a b) s ≡ plus a (add_settlement b s)
unfolding add_settlement
add_settlement-plus s a b = add_typed-plus s.event_type s a b

settlements-plus :
    (ss : List Settlement) (a b : BlockContribution)
    → fold add_settlement (plus a b) ss ≡ plus a (fold add_settlement b ss)
settlements-plus [] a b = refl
settlements-plus (s ∷ ss) a b =
    rw (add_settlement-plus s a b) (settlements-plus ss a (add_settlement b s))

add_reimbursement-plus :
    (r : ReimbursementEvent) (a b : BlockContribution)
    → add_reimbursement (plus a b) r ≡ plus a (add_reimbursement b r)
unfolding add_reimbursement plus
add_reimbursement-plus r a b = ground arith

reimbursements-plus :
    (rs : List ReimbursementEvent) (a b : BlockContribution)
    → fold add_reimbursement (plus a b) rs ≡ plus a (fold add_reimbursement b rs)
reimbursements-plus [] a b = refl
reimbursements-plus (r ∷ rs) a b =
    rw (add_reimbursement-plus r a b) (reimbursements-plus rs a (add_reimbursement b r))

-- Every field is an int64.
pub record InRange (bc : BlockContribution) : Type 0 where
  pub claims_settled : bc.claims_settled < two64
  pub claims_expired : bc.claims_expired < two64
  pub claims_slashed : bc.claims_slashed < two64
  pub claims_discarded : bc.claims_discarded < two64
  pub claimed_upokt : bc.claimed_upokt < two64
  pub effective_upokt : bc.effective_upokt < two64
  pub num_relays : bc.num_relays < two64
  pub estimated_relays : bc.estimated_relays < two64
  pub num_compute_units : bc.num_compute_units < two64
  pub estimated_compute_units : bc.estimated_compute_units < two64
  pub overservice_count : bc.overservice_count < two64
  pub reimbursement_upokt : bc.reimbursement_upokt < two64

plus-nothing : (a : BlockContribution) → InRange a → plus a nothing ≡ a
unfolding plus
plus-nothing a h = ground arith

add_typed-InRange :
    (e : EventType) (s : Settlement) (bc : BlockContribution)
    → InRange bc
    → InRange (add_typed e s bc)
unfolding add_typed
add_typed-InRange settled s bc h = ground arith
add_typed-InRange _ s bc h = ground arith

settlements-InRange :
    (ss : List Settlement) (bc : BlockContribution)
    → InRange bc
    → InRange (fold add_settlement bc ss)
unfolding add_settlement
settlements-InRange [] bc h = h
settlements-InRange (s ∷ ss) bc h =
    settlements-InRange ss (add_typed s.event_type s bc) (add_typed-InRange s.event_type s bc h)

reimbursements-InRange :
    (rs : List ReimbursementEvent) (bc : BlockContribution)
    → InRange bc
    → InRange (fold add_reimbursement bc rs)
unfolding add_reimbursement
reimbursements-InRange [] bc h = h
reimbursements-InRange (r ∷ rs) bc h = reimbursements-InRange rs _ (ground arith)

nothing-InRange : InRange nothing
nothing-InRange = omega arith

plus_comm : (a b : BlockContribution) → plus a b ≡ plus b a
unfolding plus
plus_comm a b = ground arith

abbrev with_count : List OverserviceEvent → BlockContribution → BlockContribution
with_count os bc = record bc { overservice_count = length os % two64 }

with_count-plus :
    (os os' : List OverserviceEvent) (a b : BlockContribution)
    → with_count (os ++ os') (plus a b) ≡ plus (with_count os a) (with_count os' b)
unfolding plus
with_count-plus os os' a b = ground (arith, length-append os os')

settlements-append :
    (ss ss' : List Settlement)
    → fold add_settlement nothing (ss ++ ss')
      ≡ plus (fold add_settlement nothing ss) (fold add_settlement nothing ss')
settlements-append ss ss' =
    fold-append add_settlement nothing ss ss'
    ∙ ap (λ a. fold add_settlement a ss')
        (sym (plus-nothing _ (settlements-InRange ss nothing nothing-InRange)))
    ∙ settlements-plus ss' (fold add_settlement nothing ss) nothing

reimbursements-append :
    (rs rs' : List ReimbursementEvent) (a b : BlockContribution)
    → fold add_reimbursement (plus a b) (rs ++ rs')
      ≡ plus (fold add_reimbursement a rs) (fold add_reimbursement b rs')
reimbursements-append rs rs' a b =
    fold-append add_reimbursement (plus a b) rs rs'
    ∙ ap (λ c. fold add_reimbursement c rs')
        (ap (λ c. fold add_reimbursement c rs) (plus_comm a b)
          ∙ reimbursements-plus rs b a
          ∙ plus_comm b (fold add_reimbursement a rs))
    ∙ reimbursements-plus rs' (fold add_reimbursement a rs) b

-- The aggregate of the events of two blocks is the sum of their aggregates, in every field and also
-- where the int64 sums wrap: it does not matter how the events are cut into blocks.
pub aggregate_block-append :
    (ss ss' : List Settlement) (os os' : List OverserviceEvent) (rs rs' : List ReimbursementEvent)
    → aggregate_block (ss ++ ss') (os ++ os') (rs ++ rs')
      ≡ plus (aggregate_block ss os rs) (aggregate_block ss' os' rs')
unfolding aggregate_block
aggregate_block-append ss ss' os os' rs rs' =
    ap (λ a. fold add_reimbursement (with_count (os ++ os') a) (rs ++ rs'))
      (settlements-append ss ss')
    ∙ ap (λ a. fold add_reimbursement a (rs ++ rs'))
        (with_count-plus os os' (fold add_settlement nothing ss) (fold add_settlement nothing ss'))
    ∙ reimbursements-append rs rs' (with_count os (fold add_settlement nothing ss))
        (with_count os' (fold add_settlement nothing ss'))

pub aggregate_block-InRange :
    (ss : List Settlement) (os : List OverserviceEvent) (rs : List ReimbursementEvent)
    → InRange (aggregate_block ss os rs)
unfolding aggregate_block
aggregate_block-InRange ss os rs =
    let h = settlements-InRange ss nothing nothing-InRange in
    reimbursements-InRange rs (with_count os (fold add_settlement nothing ss)) (ground arith)

-- Accumulating a block onto recalculated totals gives the recalculated totals of both together.
pub accumulate-totals_of :
    (a b : BlockContribution) (m n : Int64)
    → accumulate (totals_of a m) b n ≡ totals_of (plus a b) n
unfolding accumulate totals_of plus
accumulate-totals_of a b m n = refl

pub accumulate-plus :
    (current : Totals) (a b : BlockContribution) (m n : Int64)
    → accumulate (accumulate current a m) b n ≡ accumulate current (plus a b) n
unfolding accumulate plus
accumulate-plus current a b m n = ground arith

-- No event, no supplier: the totals of a row that does not exist.
pub no_events_totals : totals_of (aggregate_block [] [] []) 0 ≡ zero_totals
unfolding totals_of aggregate_block
no_events_totals = refl

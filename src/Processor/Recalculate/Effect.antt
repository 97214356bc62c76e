-- ===== src/Processor/Recalculate/Effect.antt =====
-- What the loop over the hours, or over the days, does to the summary rows when no statement fails.
use pocket_settlement_monito.Prelude.{
  ◌+◌, String, ◌≡◌, ◌∙◌, true, false, List, [], any, All, All_every,
}
use pocket_settlement_monito.Prelude.Eq.{◌=?◌, nat_eq, string_eq}
use pocket_settlement_monito.Prelude.Maps.{get, group_by, or_nil}
use pocket_settlement_monito.Prelude.Exec.{for_each}
use pocket_settlement_monito.Store.Models.{
  Time, Settlement, OverserviceEvent, ReimbursementEvent, Totals,
}
use pocket_settlement_monito.Store.Tables.{Tables}
use pocket_settlement_monito.Store.Tables.Laws.{KeysDistinct}
use pocket_settlement_monito.Store.Db.{
  in_turn, in_turn_frame, Implements, bind-Implements, statement-Implements, then-Implements,
  for_each-Implements,
}
use pocket_settlement_monito.Store.Db.Walk.{in_turn_never, in_turn_once}
use pocket_settlement_monito.Store.Period.{suppliers_in, suppliers_in_frame, count_active_suppliers}
use pocket_settlement_monito.Processor.Aggregate.{aggregate_block, totals_of}
use pocket_settlement_monito.Processor.Reporter.{KnownServices}
use pocket_settlement_monito.Processor.Recalculate.{
  Periods, settlement_start, overservice_start, reimbursement_start, service_group,
  reimbursement_group, recalculate_service, recalculate_network, recalculate_period,
}
use pocket_settlement_monito.Processor.Recalculate.Laws.{Rows, IsStore, IsCalendar, Leaves}

module _ (p : Periods) (w : Rows) (ss : List Settlement) (os : List OverserviceEvent)
    (rs : List ReimbursementEvent) where
  abbrev pub new_service : Time → String → Tables → Totals
  new_service a s t =
      totals_of
        (aggregate_block (service_group p ss os rs a s) [] (reimbursement_group p ss os rs a s))
        (suppliers_in a (a + p.span) s t)

  abbrev pub new_network : Time → Tables → Totals
  new_network a t =
      totals_of
        (aggregate_block (or_nil (get a (group_by (settlement_start p) ss)))
          (or_nil (get a (group_by (overservice_start p) os)))
          (or_nil (get a (group_by (reimbursement_start p) rs))))
        (suppliers_in a (a + p.span) "" t)

  abbrev put_service : Time → String → Tables → Tables
  put_service a s t = w.set_service a s (new_service a s t) t

  abbrev put_network : Time → Tables → Tables
  put_network a t = w.set_network a (new_network a t) t

  unfoldable pub put_period : KnownServices → Time → Tables → Tables
  put_period known a t = put_network a (in_turn (put_service a) known t)

  module _ (st : IsStore p w) where
    recalculate_service-Implements :
        (a : Time) (s : String)
        → Implements (recalculate_service p ss os rs a s) (λ t. (tt, put_service a s t))
    unfolding recalculate_service count_active_suppliers
    recalculate_service-Implements a s =
        bind-Implements _ _ (λ t. (suppliers_in a (a + p.span) s t, t)) _ (statement-Implements _)
          λ n. st.service a s _

    recalculate_network-Implements :
        (a : Time) → Implements (recalculate_network p ss os rs a) (λ t. (tt, put_network a t))
    unfolding recalculate_network count_active_suppliers
    recalculate_network-Implements a =
        bind-Implements _ _ (λ t. (suppliers_in a (a + p.span) "" t, t)) _ (statement-Implements _)
          λ n. st.network a _

    pub recalculate_period-Implements :
        (known : KnownServices) (starts : List Time)
        → Implements
            (for_each (recalculate_period p ss os rs known) starts)
            (λ t. (tt, in_turn (put_period known) starts t))
    unfolding recalculate_period put_period
    recalculate_period-Implements known starts =
        for_each-Implements _ (put_period known) starts λ a.
          then-Implements _ _ (in_turn (put_service a) known) (put_network a)
            (for_each-Implements _ (put_service a) known (recalculate_service-Implements a))
            (recalculate_network-Implements a)

    services-settlements :
        (known : KnownServices) (a : Time) (t : Tables)
        → (in_turn (put_service a) known t).settlements ≡ t.settlements
    services-settlements known a t =
        in_turn_frame (put_service a) (λ u. u.settlements) (λ s u. st.service_settlements a s _ u)
          known t

    pub put_period-settlements :
        (known : KnownServices) (a : Time) (t : Tables)
        → (put_period known a t).settlements ≡ t.settlements
    unfolding put_period
    put_period-settlements known a t = st.network_settlements a _ _ ∙ services-settlements known a t

    new_service_frame :
        (a : Time) (s : String) (t u : Tables)
        → t.settlements ≡ u.settlements
        → new_service a s t ≡ new_service a s u
    new_service_frame a s t u e = rw (suppliers_in_frame a (a + p.span) s t u e)

    new_network_frame :
        (a : Time) (t u : Tables)
        → t.settlements ≡ u.settlements
        → new_network a t ≡ new_network a u
    new_network_frame a t u e = rw (suppliers_in_frame a (a + p.span) "" t u e)

    module _ (c : IsCalendar p) (known : KnownServices) (starts : List Time)
        (aligned : All (λ a. p.start_of a ≡ a) starts) (a : Time) (start : p.start_of a ≡ a)
        (t : Tables) where
      network_at : (k : Time) (u : Tables) → w.network_of k (put_period known k u) ≡ new_network k u
      unfolding put_period
      network_at k u =
          st.network_same k _ _ ∙ new_network_frame k _ u (services-settlements known k u)

      network_frame :
          (k j : Time) (u : Tables)
          → p.start_of k ≡ k
          → p.start_of j ≡ j
          → (j =? k) ≡ false
          → w.network_of k (put_period known j u) ≡ w.network_of k u
      unfolding put_period
      network_frame k j u hk hj n =
          st.network_time k j _ _ (c.texts_differ k j hk hj n)
          ∙ in_turn_frame (put_service j) (w.network_of k) (λ s v. st.network_apart k j s _ v) known
              u

      service_frame :
          (s : String) (k j : Time) (u : Tables)
          → p.start_of k ≡ k
          → p.start_of j ≡ j
          → (j =? k) ≡ false
          → w.service_of k s (put_period known j u) ≡ w.service_of k s u
      unfolding put_period
      service_frame s k j u hk hj n =
          st.service_apart k j s _ _
          ∙ in_turn_frame (put_service j) (w.service_of k s)
              (λ r v. st.service_time k j s r _ v (c.texts_differ k j hk hj n)) known u

      -- A period that is not among the starts keeps its rows.
      pub network_untouched :
          any (λ b. b =? a) starts ≡ false
          → w.network_of a (in_turn (put_period known) starts t) ≡ w.network_of a t
      network_untouched h =
          in_turn_never (put_period known) w.network_of (λ k. p.start_of k ≡ k) network_frame a
            start starts t aligned h

      pub service_untouched :
          (s : String)
          → any (λ b. b =? a) starts ≡ false
          → w.service_of a s (in_turn (put_period known) starts t) ≡ w.service_of a s t
      service_untouched s h =
          in_turn_never (put_period known) (λ k. w.service_of k s) (λ k. p.start_of k ≡ k)
            (service_frame s) a start starts t aligned h

      module _ (distinct : KeysDistinct (λ b. b) starts) (h : any (λ b. b =? a) starts ≡ true) where
        -- One that is among them has its rows written anew.
        pub network_rebuilt : w.network_of a (in_turn (put_period known) starts t) ≡ new_network a t
        network_rebuilt =
            in_turn_once (put_period known) w.network_of (λ k. p.start_of k ≡ k) network_frame a
              start new_network (λ k u _. network_at k u)
              (λ k j u _ _ _. new_network_frame k _ u (put_period-settlements known j u)) starts t
              aligned distinct h

        service_at :
            (s : String)
            → KeysDistinct (λ r. r) known
            → any (λ r. r =? s) known ≡ true
            → (k : Time) (u : Tables) → w.service_of k s (put_period known k u) ≡ new_service k s u
        unfolding put_period
        service_at s d m k u =
            st.service_apart k k s _ _
            ∙ in_turn_once (put_service k) (w.service_of k) (λ _. Unit)
                (λ s r v _ _ n. st.service_name k s r _ v n) s tt (new_service k)
                (λ s v _. st.service_same k s _ v)
                (λ s r v _ _ _. new_service_frame k s _ v (st.service_settlements k r _ v)) known u
                (All_every _ known (λ _. tt)) d m

        pub service_rebuilt :
            (s : String)
            → KeysDistinct (λ r. r) known
            → any (λ r. r =? s) known ≡ true
            → w.service_of a s (in_turn (put_period known) starts t) ≡ new_service a s t
        service_rebuilt s d m =
            in_turn_once (put_period known) (λ k. w.service_of k s) (λ k. p.start_of k ≡ k)
              (service_frame s) a start (λ k. new_service k s) (λ k u _. service_at s d m k u)
              (λ k j u _ _ _. new_service_frame k s _ u (put_period-settlements known j u)) starts t
              aligned distinct h

-- The walk leaves the rows of the other pair of tables alone, and every other table.
pub put_periods_frame :
    {F : Type 0} (field : Tables → F) (p : Periods) (w : Rows) (ss : List Settlement)
    (os : List OverserviceEvent) (rs : List ReimbursementEvent) (known : KnownServices)
    (starts : List Time) (t : Tables)
    → Leaves w field
    → field (in_turn (put_period p w ss os rs known) starts t) ≡ field t
unfolding put_period
put_periods_frame field p w ss os rs known starts t h =
    in_turn_frame (put_period p w ss os rs known) field
      (λ a u.
        h.network a _ _
        ∙ in_turn_frame (put_service p w ss os rs a) field (λ r v. h.service a r _ v) known u)
      starts t

-- ===== src/Notify/Notifier/Block.antt =====
-- NotifyBlock as a whole, on a database that answers: the messages that a block gives, in their order.
use pocket_settlement_monito.Prelude.{◌≡◌, sym, ap, ◌∙◌, false, List, ◌++◌}
use pocket_settlement_monito.Prelude.Eq.{◌=?◌, nat_eq}
use pocket_settlement_monito.Prelude.Words.{Int64}
use pocket_settlement_monito.Store.Models.{Time, Settlement, OverserviceEvent}
use pocket_settlement_monito.Store.Db.{Fails}
use pocket_settlement_monito.Processor.Reporter.{hour_start, day_start}
use pocket_settlement_monito.Notify.{NotificationsConfig}
use pocket_settlement_monito.Notify.Embeds.{build_block_embeds}
use pocket_settlement_monito.Notify.Notifier.{
  Notifier, check_hour, check_summary_boundary, block_messages, block_time, notify_block,
}
use pocket_settlement_monito.Notify.Notifier.Queue.{
  outbox, offer, offer-append_twice, outbox-enqueue_all, enqueue_all_lem,
}
use pocket_settlement_monito.Notify.Notifier.Boundary.{
  hourly_messages, daily_messages, daily_due, check_hour-Checked, check_day-Checked,
}

module _ (cfg : NotificationsConfig) (ts : Time) (n : Notifier) (ok_db : Fails n.db → ⊥) where
  -- Both checks: the hour's summary goes before the day's.
  boundary_sent :
      let m = check_summary_boundary cfg ts n in
      (outbox m ≡ offer (daily_messages cfg ts n) (offer (hourly_messages cfg ts n) (outbox n)))
      × ((m.last_hourly_summary ≡ hour_start ts) × (m.last_daily_summary ≡ day_start ts))
  unfolding check_summary_boundary
  boundary_sent =
      let h = check_hour-Checked cfg ts n ok_db in
      let d = check_day-Checked cfg ts (check_hour cfg ts n) h.answers in
      (
        d.sent ∙ (λ i. offer (daily_due cfg ts (h.daily_tracker i) (h.tables i)) (h.sent i)),
        (d.hourly_tracker ∙ h.hourly_tracker, d.daily_tracker),
      )

-- On a database that answers every read, a block with a time gives its messages in this order: the summary
-- of the tracker's hour, if the configuration wants it and the block lies in another hour, that of the
-- tracker's day likewise, and the messages of the block's own payloads; no summary is given where a tracker
-- is still unset. The messages for which the channel has room join it in that order, each other one is
-- dropped and counted as an error of its type. The trackers move to the block's hour and day.
pub notify_block_lem :
    (cfg : NotificationsConfig) (height : Int64) (ss : List Settlement) (os : List OverserviceEvent)
    (n : Notifier)
    → (Fails n.db → ⊥)
    → (block_time ss os =? 0) ≡ false
    → let ts = block_time ss os in
      let m = notify_block cfg height ss os n in
      let own = block_messages cfg (build_block_embeds cfg height ts ss os) in
      (outbox m ≡ offer (hourly_messages cfg ts n ++ (daily_messages cfg ts n ++ own)) (outbox n))
      × ((m.last_hourly_summary ≡ hour_start ts) × (m.last_daily_summary ≡ day_start ts))
unfolding notify_block
notify_block_lem cfg height ss os n ok_db timed =
    let ts = block_time ss os in
    let own = block_messages cfg (build_block_embeds cfg height ts ss os) in
    let m = check_summary_boundary cfg ts n in
    let (sent, (hour_set, day_set)) = boundary_sent cfg ts n ok_db in
    rw timed (
      outbox-enqueue_all own m
          ∙ ap (offer own) sent
          ∙ sym (offer-append_twice (hourly_messages cfg ts n) (daily_messages cfg ts n) own n),
      (
        ap (λ k. k.last_hourly_summary) (enqueue_all_lem own m) ∙ hour_set,
        ap (λ k. k.last_daily_summary) (enqueue_all_lem own m) ∙ day_set,
      ),
    )

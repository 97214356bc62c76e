-- ===== src/Examples/Notify.antt =====
-- The theorems on the notifier at small inputs.
use pocket_settlement_monito.Prelude.{
  ◌≡◌, refl, true, false, List, [], ◌∷◌, ◌++◌, ◌==◌, ◌-◌, if◌then◌else◌,
}
use mathlib.Core.Bool.{false≢true}
use pocket_settlement_monito.Prelude.Eq.{nat_eq}
use pocket_settlement_monito.Processor.Reporter.{hour_start, day_start, day}
use pocket_settlement_monito.Store.Models.{Settlement}
use pocket_settlement_monito.Notify.{NotificationsConfig}
use pocket_settlement_monito.Notify.Embeds.{build_block_embeds}
use pocket_settlement_monito.Notify.Notifier.{
  Notifier, new_notifier, notify_block, block_messages, block_time,
}
use pocket_settlement_monito.Notify.Notifier.Queue.{outbox, offer}
use pocket_settlement_monito.Notify.Notifier.Boundary.{hourly_messages, daily_messages}
use pocket_settlement_monito.Notify.Notifier.Block.{notify_block_lem}
use pocket_settlement_monito.Notify.Sender.{status, Network, max_retries, send_with_retry}
use pocket_settlement_monito.Notify.Sender.Retry.{Explained, send_with_retry_lem}
use pocket_settlement_monito.Examples.{a_settlement, an_overservice, fresh_db, noon}

abbrev pub everything_on : NotificationsConfig
everything_on = record {
  webhook_url = "https://discord/normal";
  critical_webhook_url = "https://discord/critical";
  ops_webhook_url = "";
  notify_settlements = true;
  notify_expirations = true;
  notify_slashes = true;
  notify_discards = true;
  notify_overservice = true;
  hourly_summary = true;
  daily_summary = true;
  notify_connection = true;
  notify_gap = true;
  notify_health = true;
}

-- The last block was a day earlier.
abbrev yesterday : Notifier
yesterday = record (new_notifier [] fresh_db) {
  last_hourly_summary = hour_start (noon - day);
  last_daily_summary = day_start (noon - day);
}

abbrev pub settlements : List Settlement
settlements = a_settlement ∷ []

notify_block_lem_example :
    let os = an_overservice ∷ [] in
    let ts = block_time settlements os in
    let m = notify_block everything_on 100 settlements os yesterday in
    let own =
      block_messages everything_on (build_block_embeds everything_on 100 ts settlements os) in
    (outbox m
      ≡ offer
          (hourly_messages everything_on ts yesterday
            ++ (daily_messages everything_on ts yesterday ++ own))
          (outbox yesterday))
    × ((m.last_hourly_summary ≡ hour_start ts) × (m.last_daily_summary ≡ day_start ts))
notify_block_lem_example =
    notify_block_lem everything_on 100 settlements (an_overservice ∷ []) yesterday false≢true refl

-- Two answers of 429, then a 204.
abbrev busy_network : Network
busy_network = record {
  answer = λ k. if k == 2 then status 204 else status 429;
  context_ends = λ k. false;
}

send_with_retry_lem_example : Explained busy_network max_retries 0 (send_with_retry busy_network)
send_with_retry_lem_example = send_with_retry_lem busy_network

-- ===== src/Notify/Notifier.antt =====
-- notify/notifier.go: NotifyBlock, the bounded channel and the summaries at the end of an hour and a day.
-- The notifier is the two trackers, what waits in the channel, the metrics and the database that it reads.
pub mod Queue
pub mod Boundary
pub mod Block
use pocket_settlement_monito.Prelude.{
  ℕ, ◌+◌, ◌-◌, String, Bool, true, false, not, ◌&&◌, List, [], ◌∷◌, ◌++◌, any, fold, length, ltb,
  if◌then◌else◌,
}
use pocket_settlement_monito.Prelude.Eq.{◌=?◌, nat_eq, string_eq}
use pocket_settlement_monito.Prelude.Words.{Int64}
use pocket_settlement_monito.Prelude.Exec.{Result, ok, err}
use pocket_settlement_monito.Store.Models.{
  Time, rfc3339, Settlement, OverserviceEvent, Totals, zero_totals,
}
use pocket_settlement_monito.Store.Tables.{Tables}
use pocket_settlement_monito.Store.Db.{Db}
use pocket_settlement_monito.Store.Summaries.{get_hourly_summary_network, get_daily_summary_network}
use pocket_settlement_monito.Metrics.{Registry, record_discord_notification_error}
use pocket_settlement_monito.Processor.Reporter.{day, hour_start, day_start}
use pocket_settlement_monito.Notify.{NotificationsConfig, effective_critical_webhook_url}
use pocket_settlement_monito.Notify.Embeds.{
  WebhookPayload, build_block_embeds, build_hourly_summary_embed, build_daily_summary_embed,
}
use pocket_settlement_monito.Notify.Breakdown.{build_supplier_breakdown}

abbrev pub channel_buffer_size : ℕ
channel_buffer_size = 64

pub record Notification : Type 0 where
  pub webhook_url : String
  pub payload : WebhookPayload
  pub notif_type : String

pub record Notifier : Type 0 where
  pub channel : List Notification
  pub last_hourly_summary : Time
  pub last_daily_summary : Time
  pub metrics : Registry
  pub db : Db

abbrev pub new_notifier : Registry → Db → Notifier
new_notifier metrics db = record {
  channel = [];
  last_hourly_summary = 0;
  last_daily_summary = 0;
  metrics = metrics;
  db = db;
}

-- A send that does not block: a message for which the channel has no room is dropped and counted.
unfoldable pub enqueue : Notification → Notifier → Notifier
enqueue msg n =
    if ltb (length n.channel) channel_buffer_size
    then record n { channel = n.channel ++ msg ∷ [] }
    else record n { metrics = record_discord_notification_error msg.notif_type true n.metrics }

unfoldable pub enqueue_all : List Notification → Notifier → Notifier
enqueue_all [] n = n
enqueue_all (msg ∷ msgs) n = enqueue_all msgs (enqueue msg n)

-- The period's start in the summary that a read gives: zero where there is no row.
abbrev pub hour_found : Time → Tables → Time
hour_found hour t = if any (λ r. r.key =? rfc3339 hour) t.hourly_summaries_network then hour else 0

abbrev pub day_found : Time → Tables → Time
day_found day t = if any (λ r. r.key =? rfc3339 day) t.daily_summaries_network then day else 0

-- The first time that is not zero.
abbrev first_settlement_time : List Settlement → Time
first_settlement_time [] = 0
first_settlement_time (s ∷ ss) =
    let rest = first_settlement_time ss in
    if s.block_timestamp =? 0 then rest else s.block_timestamp

abbrev first_overservice_time : List OverserviceEvent → Time
first_overservice_time [] = 0
first_overservice_time (o ∷ os) =
    let rest = first_overservice_time os in
    if o.block_timestamp =? 0 then rest else o.block_timestamp

abbrev pub block_time : List Settlement → List OverserviceEvent → Time
block_time ss os =
    let ts = first_settlement_time ss in if ts =? 0 then first_overservice_time os else ts

module _ (cfg : NotificationsConfig) where
  abbrev pub to_webhook : WebhookPayload → String → Notification
  to_webhook p kind = record { webhook_url = cfg.webhook_url; payload = p; notif_type = kind }

  -- A read that fails is logged, and nothing is sent.
  abbrev pub enqueue_hourly : Time → Result Totals × Db → Notifier → Notifier
  enqueue_hourly start (err e, db) n = record n { db = db }
  enqueue_hourly start (ok summary, db) n =
      enqueue (to_webhook (build_hourly_summary_embed start summary) "hourly_summary")
        (record n { db = db })

  abbrev pub send_hourly : Notifier → Notifier
  send_hourly n =
      enqueue_hourly (hour_found n.last_hourly_summary n.db.tables)
        (get_hourly_summary_network n.last_hourly_summary n.db) n

  -- The first block sets the tracker only; a block of another hour sends the summary of the tracker's.
  unfoldable pub check_hour : Time → Notifier → Notifier
  check_hour ts n =
      let current = hour_start ts in
      if n.last_hourly_summary =? 0
      then record n { last_hourly_summary = current }
      else if current =? n.last_hourly_summary
      then n
      else record (if cfg.hourly_summary then send_hourly n else n) {
        last_hourly_summary = current;
      }

  abbrev or_zero_totals : Result Totals → Totals
  or_zero_totals (ok t) = t
  or_zero_totals (err e) = zero_totals

  abbrev pub enqueue_daily : Time → Time → Result Totals × Db → Notifier → Notifier
  enqueue_daily start date (err e, db) n = record n { db = db }
  enqueue_daily start date (ok summary, db) n =
      let (previous, db') = get_daily_summary_network (date - day) db in
      let (breakdown, db'') = build_supplier_breakdown date db' in
      enqueue
        (to_webhook (build_daily_summary_embed start summary (or_zero_totals previous) breakdown)
          "daily_summary")
        (record n { db = db'' })

  abbrev pub send_daily : Notifier → Notifier
  send_daily n =
      enqueue_daily (day_found n.last_daily_summary n.db.tables) n.last_daily_summary
        (get_daily_summary_network n.last_daily_summary n.db) n

  unfoldable pub check_day : Time → Notifier → Notifier
  check_day ts n =
      let current = day_start ts in
      if n.last_daily_summary =? 0
      then record n { last_daily_summary = current }
      else if current =? n.last_daily_summary
      then n
      else record (if cfg.daily_summary then send_daily n else n) { last_daily_summary = current }

  unfoldable pub check_summary_boundary : Time → Notifier → Notifier
  check_summary_boundary ts n = check_day ts (check_hour ts n)

  -- The messages of the payloads: each to the webhook, and a slash to the critical one as well.
  unfoldable pub block_messages : List WebhookPayload → List Notification
  block_messages [] = []
  block_messages (p ∷ ps) =
      let critical = effective_critical_webhook_url cfg in
      let rest = block_messages ps in
      to_webhook p "block"
      ∷ (if p.is_slash && not (critical =? "")
          then record { webhook_url = critical; payload = p; notif_type = "slash_critical" } ∷ rest
          else rest)

  unfoldable pub notify_block :
      Int64 → List Settlement → List OverserviceEvent → Notifier → Notifier
  notify_block height ss os n =
      let ts = block_time ss os in
      let n' = if ts =? 0 then n else check_summary_boundary ts n in
      enqueue_all (block_messages (build_block_embeds cfg height ts ss os)) n'

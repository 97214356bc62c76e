-- ===== src/Notify.antt =====
-- The package notify: Discord webhooks for the events of a block and for the summaries, and the part of
-- config/config.go that it reads.
pub mod Embeds
pub mod Format
pub mod Texts
pub mod Breakdown
pub mod Notifier
pub mod Sender
use pocket_settlement_monito.Prelude.{String, Bool, if◌then◌else◌}
use pocket_settlement_monito.Prelude.Eq.{◌=?◌, string_eq}

pub record NotificationsConfig : Type 0 where
  pub webhook_url : String
  pub critical_webhook_url : String
  pub ops_webhook_url : String
  pub notify_settlements : Bool
  pub notify_expirations : Bool
  pub notify_slashes : Bool
  pub notify_discards : Bool
  pub notify_overservice : Bool
  pub hourly_summary : Bool
  pub daily_summary : Bool
  pub notify_connection : Bool
  pub notify_gap : Bool
  pub notify_health : Bool

abbrev pub effective_critical_webhook_url : NotificationsConfig → String
effective_critical_webhook_url cfg =
    if cfg.critical_webhook_url =? "" then cfg.webhook_url else cfg.critical_webhook_url

abbrev pub effective_ops_webhook_url : NotificationsConfig → String
effective_ops_webhook_url cfg =
    if cfg.ops_webhook_url =? "" then cfg.webhook_url else cfg.ops_webhook_url

-- ===== src/Notify/Sender.antt =====
-- notify/notifier.go: sendWithRetry and the sender's loop. What the network answers to each post of a
-- message, and whether the context ends during the wait after it, are given; the length of the wait, which
-- parseRetryAfter reads off the answer, only delays the next post.
pub mod Retry
use pocket_settlement_monito.Prelude.{
  ℕ, zero, suc, ◌+◌, ◌≡◌, Bool, true, false, ◌||◌, List, [], ◌∷◌, ◌==◌, if◌then◌else◌,
}
use pocket_settlement_monito.Metrics.{
  Registry, record_discord_notification, record_discord_notification_error,
}
use pocket_settlement_monito.Prelude.Words.{Int64}
use pocket_settlement_monito.Store.Models.{Settlement, OverserviceEvent}
use pocket_settlement_monito.Notify.{NotificationsConfig}
use pocket_settlement_monito.Notify.Notifier.{Notification, Notifier, notify_block}

-- What `client.Do` returns: an error, or a status.
pub data Response : Type 0 where
  request_failed : Response
  status : ℕ → Response

pub data SendError : Type 0 where
  http_failed rate_limited context_done bad_status : SendError

pub data SendResult : Type 0 where
  sent : SendResult
  failed : SendError → SendResult

abbrev pub max_retries : ℕ
max_retries = 3

abbrev pub is_success : ℕ → Bool
is_success code = code == 200 || code == 204

-- The answer to each attempt, and whether the context is done while it waits.
pub record Network : Type 0 where
  pub answer : ℕ → Response
  pub context_ends : ℕ → Bool

-- What follows an answer; `limited` is what follows a 429. Beside the result stands the number of posts.
abbrev pub settle : Response → SendResult × ℕ → ℕ → SendResult × ℕ
settle request_failed limited attempt = (failed http_failed, attempt + 1)
settle (status code) limited attempt =
    if is_success code
    then (sent, attempt + 1)
    else if code == 429
    then limited
    else (failed bad_status, attempt + 1)

module _ (net : Network) where
  -- The loop from `attempt` on, with `retries` more attempts after it.
  unfoldable pub send_from : ℕ → ℕ → SendResult × ℕ
  send_from zero attempt = settle (net.answer attempt) (failed rate_limited, attempt + 1) attempt
  send_from (suc retries) attempt =
      let rest = send_from retries (attempt + 1) in
      settle (net.answer attempt)
        (if net.context_ends attempt then (failed context_done, attempt + 1) else rest) attempt

  unfoldable pub send_with_retry : SendResult × ℕ
  send_with_retry = send_from max_retries 0

abbrev count_result : SendResult → Notification → Registry → Registry
count_result sent msg m = record_discord_notification msg.notif_type true m
count_result (failed e) msg m = record_discord_notification_error msg.notif_type true m

-- A message that was taken from the channel is sent, and the result counted.
unfoldable pub deliver : Network → Notification → Notifier → Notifier
deliver net msg n = record n { metrics = count_result (send_with_retry net).0 msg n.metrics }

abbrev drain_next : (Notifier → Notifier) → Network → List Notification → Notifier → Notifier
drain_next rest net [] n = n
drain_next rest net (msg ∷ msgs) n = rest (deliver net msg (record n { channel = msgs }))

-- Until the channel is empty or the context expires, which it does at the end of the list.
unfoldable pub drain : List Network → Notifier → Notifier
drain [] n = n
drain (net ∷ nets) n = drain_next (drain nets) net n.channel n

-- NotifyBlock and the sender's goroutine, in any interleaving.
pub data Step (cfg : NotificationsConfig) : Notifier → Notifier → Type 0 where
  block :
      (height : Int64) (ss : List Settlement) (os : List OverserviceEvent) (n : Notifier)
      → Step cfg n (notify_block cfg height ss os n)
  take_message :
      (net : Network) (n : Notifier) (msg : Notification) (rest : List Notification)
      → n.channel ≡ msg ∷ rest
      → Step cfg n (deliver net msg (record n { channel = rest }))

-- ===== src/Examples/Subscriber.antt =====
-- A connection that fails at first, is made, receives, ends, and is made again.
use pocket_settlement_monito.Prelude.{
  ◌≡◌, refl, String, true, false, Option, none, some, List, [], ◌∷◌,
}
use pocket_settlement_monito.Subscriber.Types.{Message}
use pocket_settlement_monito.Subscriber.Decoder.{AbciEvent}
use pocket_settlement_monito.Subscriber.Receive.{Received, new_block_events, Receiver, receive}
use pocket_settlement_monito.Subscriber.Connection.{
  Connection, reconnecting, receiving, handle_ready, new_connection, state_reconnected, disconnect,
  move_to, notify_state_change, Reach, start, next, block_processed, block_done, connect_failed,
  attempt_failed, reconnect, message, ended,
}
use pocket_settlement_monito.Subscriber.Connection.Readiness.{
  is_receiving, websocket_gauge, Answers, Reach-handle_ready,
}

abbrev targets : List String
targets = "settled" ∷ []

abbrev parser : AbciEvent → Option Message
parser e = none

abbrev receiver : Receiver
receiver = record { last_seen_height = 100; stats = []; outputs = [] }

abbrev first_block : Received
first_block = new_block_events 103 (some 7) 9 [] true

abbrev up_again : Connection → Connection
up_again c =
    move_to receiving (notify_state_change state_reconnected c.receiver.last_seen_height 0 c)

abbrev refused : Connection
refused = move_to (reconnecting 1) (disconnect (new_connection receiver))

abbrev after_first : Connection
after_first = record (up_again refused) { receiver = receive targets parser receiver first_block }

abbrev again : Connection
again = up_again (disconnect after_first)

first_received : Reach targets parser receiver (first_block ∷ []) (disconnect after_first)
first_received =
    next
      (next
        (next
          (next (next start (connect_failed (new_connection receiver) refl))
            (attempt_failed (disconnect (new_connection receiver)) 0 refl))
          (reconnect refused 1 refl))
        (message (up_again refused) first_block refl))
      (ended after_first refl)

reached : Reach targets parser receiver (first_block ∷ []) again
reached = next first_received (reconnect (disconnect after_first) 0 refl)

Reach-handle_ready_example :
    (websocket_gauge again.sinks.metrics ≡ is_receiving again.phase) × Answers true again
Reach-handle_ready_example = Reach-handle_ready targets parser true reached refl

-- The first block is processed after the connection has ended: /ready answers 200 while the loop waits to
-- reconnect.
abbrev late : Connection
late = block_done false (disconnect after_first)

late_reached : Reach targets parser receiver (first_block ∷ []) late
late_reached = next first_received (block_processed (disconnect after_first))

late_ready :
    ((handle_ready late.sinks.ws_connected true).0 ≡ 200) × (is_receiving late.phase ≡ false)
late_ready = (refl, refl)

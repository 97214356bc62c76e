-- ===== src/Subscriber/Connection.antt =====
-- subscriber/subscriber.go: Run, subscribeAndProcess and reconnect, with the callback that
-- metrics/metrics.go and cmd/cmd_monitor.go make for the changes of the connection's state. A step is what
-- the call or the `select` that the goroutine waits in brings: the answer of Subscribe, a message, the end
-- of the subscription (the channel is closed or the heartbeat has timed out), or the context's end; and, in
-- the collector's goroutine, a block that cmd/monitor.go sees processed.
pub mod Readiness
use pocket_settlement_monito.Prelude.{
  ℕ, zero, suc, ◌+◌, ◌≡◌, String, Bool, true, false, Option, List, [], ◌∷◌, ◌++◌, ◌&&◌,
  if◌then◌else◌,
}
use pocket_settlement_monito.Prelude.Words.{Int64}
use pocket_settlement_monito.Subscriber.Types.{Message}
use pocket_settlement_monito.Subscriber.Decoder.{AbciEvent}
use pocket_settlement_monito.Subscriber.Receive.{Received, Receiver, receive}
use pocket_settlement_monito.Metrics.{
  Registry, Update, websocket_reconnects, set_websocket_connected,
}

pub data ConnectionState : Type 0 where
  state_connected : ConnectionState
  state_disconnected : ConnectionState
  state_reconnected : ConnectionState

pub record StateChangeEvent : Type 0 where
  pub state : ConnectionState
  pub last_seen_height : Int64
  pub resume_height : Int64

-- What the callback writes to: the registry, the flag of the server's /ready, and the calls of the
-- notifier of operations.
pub data ConnectionMessage : Type 0 where
  websocket_is_connected : ConnectionMessage
  websocket_is_disconnected : (last_height : Int64) → ConnectionMessage

pub record Sinks : Type 0 where
  pub metrics : Registry
  pub ws_connected : Bool
  pub ops : List ConnectionMessage

abbrev pub state_change_callback : StateChangeEvent → Sinks → Sinks
state_change_callback e s = elim e.state [
  | state_connected ↦ record s {
    metrics = set_websocket_connected true s.metrics;
    ws_connected = true;
  }
  | state_reconnected ↦ record s {
    metrics = set_websocket_connected true s.metrics ++ websocket_reconnects ∷ [];
    ws_connected = true;
  }
  | state_disconnected ↦ record s {
    metrics = set_websocket_connected false s.metrics;
    ws_connected = false;
  }
]

-- `stateChangeCB` of the monitor.
abbrev pub monitor_callback : StateChangeEvent → Sinks → Sinks
monitor_callback e s =
    let s' = state_change_callback e s in
    elim e.state [
      | state_connected ↦ record s' { ops = s'.ops ++ websocket_is_connected ∷ [] }
      | state_reconnected ↦ s'
      | state_disconnected ↦ record s' {
        ops = s'.ops ++ websocket_is_disconnected e.last_seen_height ∷ [];
      }
    ]

pub record ReadyResponse : Type 0 where
  pub status : String
  pub websocket : Bool
  pub db : Bool

-- handleReady of metrics/server.go, by the flag and the database check: the status code and the body.
abbrev pub handle_ready : Bool → Bool → ℕ × ReadyResponse
handle_ready ws_ok db_ok =
    if ws_ok && db_ok
    then (200, record { status = "ok"; websocket = ws_ok; db = db_ok })
    else (503, record { status = "not_ready"; websocket = ws_ok; db = db_ok })

-- Where the goroutine of Run waits: in the first Subscribe, in receiveLoop, in the delay of an attempt or
-- its Subscribe; or Run has returned.
pub data Phase : Type 0 where
  subscribing : Phase
  receiving : Phase
  reconnecting : (attempt : ℕ) → Phase
  stopped : Phase

pub record Connection : Type 0 where
  pub phase : Phase
  pub receiver : Receiver
  pub sinks : Sinks
  pub source_closes : ℕ
  pub first_block_done : Bool

abbrev pub new_connection : Receiver → Connection
new_connection r = record {
  phase = subscribing;
  receiver = r;
  sinks = record { metrics = []; ws_connected = false; ops = [] };
  source_closes = 0;
  first_block_done = false;
}

abbrev pub notify_state_change : ConnectionState → Int64 → Int64 → Connection → Connection
notify_state_change state last_seen resume c = record c {
  sinks =
      monitor_callback
        (record { state = state; last_seen_height = last_seen; resume_height = resume }) c.sinks;
}

abbrev pub move_to : Phase → Connection → Connection
move_to phase c = record c { phase = phase }

-- From a connection's end, or the first Subscribe's error, to the first attempt.
abbrev pub disconnect : Connection → Connection
disconnect c =
    let c' = notify_state_change state_disconnected c.receiver.last_seen_height 0 c in
    record c' { phase = reconnecting 0; source_closes = c'.source_closes + 1 }

-- `firstBlockOnce.Do` of the monitor's wrapper around ProcessBlock, for a block without an error. It runs in
-- the collector's goroutine, at any time.
abbrev pub block_done : Bool → Connection → Connection
block_done true c = c
block_done false c = record c {
  sinks = record { metrics = c.sinks.metrics; ws_connected = true; ops = c.sinks.ops };
  first_block_done = true;
}

module _ (target_event_types : List String) (parse_typed_event : AbciEvent → Option Message) where
  -- One step, and the messages that it receives.
  pub data Step : Connection → List Received → Connection → Type 0 where
    connect :
        (c : Connection)
        → c.phase ≡ subscribing
        → Step c [] (move_to receiving (notify_state_change state_connected 0 0 c))
    connect_failed : (c : Connection) → c.phase ≡ subscribing → Step c [] (disconnect c)
    message :
        (c : Connection) (m : Received)
        → c.phase ≡ receiving
        → Step c
            (m ∷ [])
            (record c { receiver = receive target_event_types parse_typed_event c.receiver m })
    ended : (c : Connection) → c.phase ≡ receiving → Step c [] (disconnect c)
    attempt_failed :
        (c : Connection) (attempt : ℕ)
        → c.phase ≡ reconnecting attempt
        → Step c [] (move_to (reconnecting (attempt + 1)) c)
    reconnect :
        (c : Connection) (attempt : ℕ)
        → c.phase ≡ reconnecting attempt
        → Step c [] (
            move_to receiving
              (notify_state_change state_reconnected c.receiver.last_seen_height 0 c))
    block_processed : (c : Connection) → Step c [] (block_done c.first_block_done c)
    cancel : (c : Connection) → Step c [] (move_to stopped c)

  -- What Run reaches, and the messages received on the way.
  pub data Reach (r : Receiver) : List Received → Connection → Type 0 where
    start : Reach r [] (new_connection r)
    next :
        {ms ms' : List Received} {c c' : Connection}
        → Reach r ms c
        → Step c ms' c'
        → Reach r (ms ++ ms') c'

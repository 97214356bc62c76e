-- ===== src/Subscriber/Connection/Readiness.antt =====
-- What the callback's sinks say of the connection.

use pocket_settlement_monito.Prelude.{
  ℕ, ◌≡◌, refl, ◌∙◌, ◌⊎◌, inl, inr, String, Bool, true, false, Option, List, [], ◌∷◌, fold,
  fold-append, ◌&&◌, if◌then◌else◌, arith,
}
use pocket_settlement_monito.Subscriber.Types.{Message}
use pocket_settlement_monito.Subscriber.Decoder.{AbciEvent}
use pocket_settlement_monito.Subscriber.Receive.{Received, Receiver}
use pocket_settlement_monito.Metrics.{
  Registry, Update, websocket_connected, websocket_reconnects, set_websocket_connected,
}
use pocket_settlement_monito.Subscriber.Connection.{
  Phase, receiving, reconnecting, stopped, Sinks, Connection, handle_ready, disconnect, block_done,
  Step, block_processed, connect, connect_failed, message, ended, attempt_failed, reconnect, cancel,
  Reach, start, next,
}

-- The gauge's value.
abbrev gauge_after : Bool → Update → Bool
gauge_after up (websocket_connected connected) = connected
gauge_after up _ = up

abbrev pub websocket_gauge : Registry → Bool
websocket_gauge m = fold gauge_after false m

abbrev pub is_receiving : Phase → Bool
is_receiving receiving = true
is_receiving _ = false

abbrev pub is_stopped : Phase → Bool
is_stopped stopped = true
is_stopped _ = false

abbrev pub status_code : Bool → ℕ
status_code ready = if ready then 200 else 503

handle_ready-status : (ws db : Bool) → (handle_ready ws db).0 ≡ status_code (ws && db)
handle_ready-status true true = refl
handle_ready-status true false = refl
handle_ready-status false db = refl

-- What the flag of /ready says: the connection, or `true` that the first processed block has set.
abbrev pub Flag : Phase → Bool → Bool → Type 0
Flag phase flag first_block_done =
    (flag ≡ is_receiving phase) ⊎ ((flag ≡ true) × (first_block_done ≡ true))

-- While Run has not returned, the gauge says if it receives.
abbrev pub Gauge : Phase → Bool → Type 0
Gauge phase gauge = (gauge ≡ is_receiving phase) ⊎ (is_stopped phase ≡ true)

abbrev pub IsTold : Phase → Sinks → Bool → Type 0
IsTold phase s done =
    (Flag phase s.ws_connected done ⊎ (is_stopped phase ≡ true))
    × Gauge phase (websocket_gauge s.metrics)

abbrev pub IsReady : Connection → Type 0
IsReady c = IsTold c.phase c.sinks c.first_block_done

-- What /ready answers: 200 if the receive loop runs and the database check succeeds, and 503 otherwise; but
-- once a first block has been processed it may be by the database alone.
abbrev pub Answers : Bool → Connection → Type 0
Answers db c =
    ((handle_ready c.sinks.ws_connected db).0 ≡ status_code (is_receiving c.phase && db))
    ⊎ ((c.first_block_done ≡ true) × ((handle_ready c.sinks.ws_connected db).0 ≡ status_code db))

module _ (target_event_types : List String) (parse_typed_event : AbciEvent → Option Message) where
  disconnect-IsReady : (c : Connection) → IsReady (disconnect c)
  disconnect-IsReady c = (
    inl (inl refl),
    inl (fold-append gauge_after false c.sinks.metrics (websocket_connected false ∷ [])),
  )

  block_done-IsReady :
      (done : Bool) (c : Connection)
      → c.first_block_done ≡ done
      → IsReady c
      → IsReady (block_done done c)
  block_done-IsReady true c same ready = ready
  block_done-IsReady false c same (told, gauge) = (inl (inr (refl, refl)), gauge)

  Step-IsReady :
      {c c' : Connection} {ms : List Received}
      → Step target_event_types parse_typed_event c ms c'
      → IsReady c
      → IsReady c'
  Step-IsReady (connect c w) ready = (
    inl (inl refl),
    inl (fold-append gauge_after false c.sinks.metrics (websocket_connected true ∷ [])),
  )
  Step-IsReady (connect_failed c w) ready = disconnect-IsReady c
  Step-IsReady (message c m w) ready = ready
  Step-IsReady (ended c w) ready = disconnect-IsReady c
  Step-IsReady (attempt_failed c n w) ready =
      let told : IsTold (reconnecting n) c.sinks c.first_block_done = rw w at ready in told
  Step-IsReady (reconnect c n w) ready = (
    inl (inl refl),
    inl (
        fold-append gauge_after false (set_websocket_connected true c.sinks.metrics)
          (websocket_reconnects ∷ [])
        ∙ fold-append gauge_after false c.sinks.metrics (websocket_connected true ∷ [])),
  )
  Step-IsReady (block_processed c) ready = block_done-IsReady c.first_block_done c refl ready
  Step-IsReady (cancel c) ready = (inr refl, inr refl)

  Reach-IsReady :
      {r : Receiver} {ms : List Received} {c : Connection}
      → Reach target_event_types parse_typed_event r ms c
      → IsReady c
  Reach-IsReady start = (inl (inl refl), inl refl)
  Reach-IsReady (next before step) = Step-IsReady step (Reach-IsReady before)

  -- However often the connection ends and is made again, as long as Run has not returned: the gauge of the
  -- connection is up exactly if the receive loop runs. The endpoint /ready answers 200 exactly if the loop
  -- runs and the database check succeeds, and 503 otherwise; only after a first block has been processed it
  -- may instead answer by the database check alone.
  pub Reach-handle_ready :
      {r : Receiver} {ms : List Received} {c : Connection} (db : Bool)
      → Reach target_event_types parse_typed_event r ms c
      → is_stopped c.phase ≡ false
      → (websocket_gauge c.sinks.metrics ≡ is_receiving c.phase) × Answers db c
  Reach-handle_ready {r} {ms} {c} db reached running =
      let (told, gauge) = Reach-IsReady reached in
      (
        elim gauge [ inl same ↦ same | inr over ↦ absurd (ground arith) ],
        elim told [
          | inl (inl same) ↦ inl (rw same (handle_ready-status (is_receiving c.phase) db))
          | inl (inr (up, done)) ↦ inr (done, rw up (handle_ready-status true db))
          | inr over ↦ absurd (ground arith)
        ],
      )

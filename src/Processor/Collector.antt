-- ===== src/Processor/Collector.antt =====
-- processor/collector.go: the Collector, which gathers the messages of one height and hands them to the
-- processor. Its `select` takes the ready cases in any order: the inputs are any list of received
-- blocks and expired timers, and an ending.
pub mod Steps
pub mod Complete
use pocket_settlement_monito.Prelude.{
  ℕ, Bool, true, false, List, [], ◌∷◌, ◌++◌, ◌==◌, ◌&&◌, not, if◌then◌else◌,
}
use pocket_settlement_monito.Prelude.Words.{Int64}
use pocket_settlement_monito.Prelude.Exec.{
  Error, context, Result, ok, err, Exec, pure, ◌>>=◌, ◌>>◌, for_each,
}
use pocket_settlement_monito.Store.Models.{Time}
use pocket_settlement_monito.Subscriber.Types.{SettlementEvent, BlockEvents}

-- The interface: ProcessBlock, on a state `S` of the processor's own.
pub record BlockProcessor (S : Type 0) : Type 0 where
  pub process_block : Int64 → Time → List SettlementEvent → Bool → Exec S Unit

pub record Collector : Type 0 where
  pub current_height : Int64
  pub current_timestamp : Time
  pub current_events : List SettlementEvent
  pub is_live : Bool

abbrev pub new_collector : Collector
new_collector = record {
  current_height = 0;
  current_timestamp = 0;
  current_events = [];
  is_live = true;
}

-- What one turn of the loop receives.
pub data Input : Type 0 where
  received : BlockEvents → Input
  timer_expired : Input

pub data Ending : Type 0 where
  context_done channel_closed : Ending

-- An empty slice is the one of length 0.
abbrev pub is_empty : List SettlementEvent → Bool
is_empty [] = true
is_empty (e ∷ es) = false

abbrev pub reset : Collector → Collector
reset c = record c { current_height = 0; current_timestamp = 0; current_events = [] }

abbrev pub append_block : BlockEvents → Collector → Collector
append_block b c = record c {
  current_height = b.height;
  current_timestamp = b.timestamp;
  current_events = c.current_events ++ b.events;
}

-- `ctx.Err()`, or nil.
abbrev pub returned : Ending → Result (Unit {0})
returned context_done = err context
returned channel_closed = ok tt

abbrev pub is_new_height : BlockEvents → Collector → Bool
is_new_height b c = not (c.current_height == 0) && not (b.height == c.current_height)

module _ {S : Type 0} (p : BlockProcessor S) where
  -- The collector is reset also where ProcessBlock fails.
  unfoldable pub flush : Exec (Collector × S) Unit
  flush (c, s) =
      let (r, s') =
        p.process_block c.current_height c.current_timestamp c.current_events c.is_live s in
      (r, (reset c, s'))

  abbrev pub accept : BlockEvents → Exec (Collector × S) Unit
  accept b (c, s) = (ok tt, (append_block b c, s))

  -- A new height: the previous block is flushed first.
  unfoldable pub step : Input → Exec (Collector × S) Unit
  step (received b) (c, s) =
      if is_new_height b c then (flush >> accept b) (c, s) else accept b (c, s)
  step timer_expired (c, s) = if is_empty c.current_events then (ok tt, (c, s)) else flush (c, s)

  -- The error of the last flush is logged.
  unfoldable pub final_flush : Collector × S → Collector × S
  final_flush (c, s) = if is_empty c.current_events then (c, s) else (flush (c, s)).1

  -- The loop's inputs as long as there are any; an error ends it at once.
  abbrev pub stop :
      Ending → Result (Unit {0}) × (Collector × S) → Result (Unit {0}) × (Collector × S)
  stop ending (ok _, s) = (returned ending, final_flush s)
  stop ending (err e, s) = (err e, s)

  unfoldable pub run : List Input → Ending → Exec (Collector × S) Unit
  run inputs ending s = stop ending (for_each step inputs s)

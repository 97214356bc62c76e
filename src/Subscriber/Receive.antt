-- ===== src/Subscriber/Receive.antt =====
-- subscriber/subscriber.go: receiveLoop. `lastSeenHeight` is a field of the Subscriber and outlives a
-- connection: the inputs are those of all connections, one after the other. The callbacks and the
-- channel of BlockEvents are a list of outputs, in the order of the calls.
pub mod Gaps
use pocket_settlement_monito.Prelude.{
  ℕ, String, Bool, true, false, Option, none, some, List, [], ◌∷◌, ◌++◌, fold, if◌then◌else◌, ◌&&◌,
}
use pocket_settlement_monito.Prelude.Words.{Int64, slt, add64, sub64}
use pocket_settlement_monito.Store.Models.{Time}
use pocket_settlement_monito.Subscriber.Types.{Message, SettlementEvent, BlockEvents}
use pocket_settlement_monito.Subscriber.Decoder.{AbciEvent, DecodeStats, decode_block_events_common}

-- A message of the subscription: a block with the answer to the header query, the wall clock, its events,
-- and whether the channel takes what they become; or data of another type. The channel refuses only where it
-- is full until the context ends.
pub data Received : Type 0 where
  new_block_events :
      (height : Int64)
      → (header : Option Time) → (now : Time) → List AbciEvent
      → (taken : Bool) → Received
  unexpected_data : Received

pub data Output : Type 0 where
  gap : (from to : Int64) → Output
  block : (height : Int64) → Output
  emitted : BlockEvents → Output

pub record Receiver : Type 0 where
  pub last_seen_height : Int64
  pub stats : DecodeStats
  pub outputs : List Output

abbrev block_time : Option Time → Time → Time
block_time none now = now
block_time (some t) now = t

-- `if s.lastSeenHeight > 0 && blockData.Height > s.lastSeenHeight+1`
abbrev pub gap_before : Int64 → Int64 → List Output
gap_before last height =
    if slt 0 last && slt (add64 last 1) height then gap (add64 last 1) (sub64 height 1) ∷ [] else []

-- The two selects: a block that the channel does not take is lost.
abbrev pub emit_block_events : Bool → BlockEvents → List Output
emit_block_events taken b = if taken then emitted b ∷ [] else []

-- `if len(blockEvents.Events) > 0`
abbrev emit : Bool → BlockEvents → List SettlementEvent → List Output
emit taken b [] = []
emit taken b (e ∷ es) = emit_block_events taken b

module _ (target_event_types : List String) (parse_typed_event : AbciEvent → Option Message) where
  unfoldable pub receive : Receiver → Received → Receiver
  receive r unexpected_data = r
  receive r (new_block_events height header now events taken) =
      let (b, stats) =
        decode_block_events_common target_event_types parse_typed_event events height
          (block_time header now) r.stats in
      record {
        last_seen_height = height;
        stats = stats;
        outputs =
            r.outputs
            ++ (gap_before r.last_seen_height height ++ (block height ∷ emit taken b b.events));
      }

  unfoldable pub receive_loop : Receiver → List Received → Receiver
  receive_loop r inputs = fold receive r inputs

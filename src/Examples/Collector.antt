-- ===== src/Examples/Collector.antt =====
-- What arrives on the way to the collector: decoding, the receiving loop, and the collector itself.
use pocket_settlement_monito.Prelude.{
  ◌+◌, ◌≤◌, String, ◌≡◌, ◌⊎◌, true, Option, none, some, List, [], ◌∷◌, ◌++◌, any, length, select,
  arith, if◌then◌else◌,
}
use pocket_settlement_monito.Prelude.Eq.{◌=?◌, nat_eq, string_eq}
use pocket_settlement_monito.Prelude.Exec.{ok, err, Error}
use pocket_settlement_monito.Subscriber.Types.{Message, claim_settled}
use pocket_settlement_monito.Subscriber.Decoder.{AbciEvent, decode_block_events_common}
use pocket_settlement_monito.Subscriber.Decoder.Decoded.{
  Decodes, failures_of, decode_block_events_common-Decodes,
}
use pocket_settlement_monito.Subscriber.Receive.{
  Received, new_block_events, unexpected_data, Receiver, receive, receive_loop,
}
use pocket_settlement_monito.Subscriber.Receive.Gaps.{covers, receive_loop-covers}
use pocket_settlement_monito.Processor.Collector.{
  BlockProcessor, Input, received, timer_expired, channel_closed, run, new_collector,
}
use pocket_settlement_monito.Processor.Collector.Steps.{
  Tagged, handed_on, events_of, recording, ProcessorFailed,
}
use pocket_settlement_monito.Processor.Collector.Complete.{run_delivers}
use pocket_settlement_monito.Examples.{noon}
use pocket_settlement_monito.Examples.Pipeline.{a_claim, events}

-- A processor that records nothing and always succeeds.
abbrev accepting : BlockProcessor Unit
accepting = record { process_block = λ h ts es is_live s. (ok tt, s) }

abbrev messages : List Input
messages =
    received (record { height = 100; timestamp = noon; events = events })
    ∷ timer_expired
    ∷ received (record { height = 101; timestamp = noon; events = events })
    ∷ []

run_delivers_example :
    let (r, (c, (s, calls))) =
      run (recording accepting) messages channel_closed (new_collector, (tt, [])) in
    ((r ≡ ok tt) × (handed_on calls ≡ events_of messages))
    ⊎ ((e : Error) × (r ≡ err e)
        × ProcessorFailed accepting e
        × (rest : Tagged) × (handed_on calls ++ rest ≡ events_of messages))
run_delivers_example =
    run_delivers accepting messages channel_closed tt (ground arith, (tt, (ground arith, tt)))

abbrev parser : AbciEvent → Option Message
parser e = if e.type =? "settled" then some (claim_settled a_claim) else none

abbrev targets : List String
targets = "settled" ∷ "expired" ∷ []

abbrev abci_events : List AbciEvent
abci_events =
    record { type = "settled"; attributes = ("mode", "EndBlock") ∷ [] }
    ∷ record { type = "transfer"; attributes = [] }
    ∷ record { type = "expired"; attributes = [] }
    ∷ []

decode_block_events_common-Decodes_example :
    let (block, stats) = decode_block_events_common targets parser abci_events 100 noon [] in
    (block.height ≡ 100)
    × (block.timestamp ≡ noon)
    × (failed : List String) × Decodes targets parser 100 abci_events block.events failed
    × ((t : String) → failures_of t stats ≡ failures_of t [] + length (select (λ u. u =? t) failed))
decode_block_events_common-Decodes_example =
    decode_block_events_common-Decodes targets parser abci_events 100 noon []

abbrev receiver : Receiver
receiver = record { last_seen_height = 100; stats = []; outputs = [] }

abbrev subscription : List Received
subscription =
    new_block_events 101 (some noon) noon abci_events true
    ∷ unexpected_data
    ∷ new_block_events 105 none noon [] true
    ∷ []

seen : 103 ≤ (receive_loop targets parser receiver subscription).last_seen_height
unfolding receive_loop receive
seen = omega arith

receive_loop-covers_example :
    any (covers 103) (receive_loop targets parser receiver subscription).outputs ≡ true
receive_loop-covers_example =
    receive_loop-covers targets parser 103 receiver subscription (ground arith) (ground arith)
      ((ground arith, ground arith), (tt, ((ground arith, ground arith), tt))) (ground arith) seen

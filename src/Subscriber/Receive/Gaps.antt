-- ===== src/Subscriber/Receive/Gaps.antt =====
-- Every height is received or reported as a gap.

use pocket_settlement_monito.Prelude.{
  ℕ, ◌+◌, ◌-◌, ◌<◌, ◌≤◌, String, ◌≡◌, refl, inl, inr, Bool, true, false, Option, List, [], ◌∷◌, any,
  any-append_left, any-append_right, All, arith, ◌&&◌, leb, ◌==◌, Bool-cases,
}
use pocket_settlement_monito.Prelude.Words.{Int64, two63, slt, add64, sub64, slt-eq-ltb}
use pocket_settlement_monito.Store.Models.{Time}
use pocket_settlement_monito.Subscriber.Types.{Message}
use pocket_settlement_monito.Subscriber.Decoder.{AbciEvent}
use pocket_settlement_monito.Subscriber.Receive.{
  Received, new_block_events, unexpected_data, Output, gap, block, emitted, Receiver, gap_before,
  receive, receive_loop,
}

-- A height that a callback has named.
abbrev pub covers : ℕ → Output → Bool
covers h (gap from to) = leb from h && leb h to
covers h (block height) = h == height
covers h (emitted b) = false

-- A block's height is positive and less than the greatest int64.
abbrev pub HasHeight : Received → Type 0
HasHeight unexpected_data = Unit
HasHeight (new_block_events height header now events taken) = (0 < height) × (height < two63 - 1)

gap_before-covers :
    (last height h : ℕ)
    → 0 < last
    → last < two63 - 1
    → height < two63 - 1
    → last < h
    → h < height
    → any (covers h) (gap_before last height) ≡ true
gap_before-covers last height h pos small bound above below =
    let after : add64 last 1 ≡ last + 1 = omega arith in
    let before : sub64 height 1 ≡ height - 1 = omega arith in
    let seen : slt 0 last ≡ true = ground (arith, slt-eq-ltb 0 last) in
    let skipped : slt (last + 1) height ≡ true = ground (arith, slt-eq-ltb (last + 1) height) in
    rw (seen, after, skipped, before) (ground arith)

module _ (target_event_types : List String) (parse_typed_event : AbciEvent → Option Message)
    (h : ℕ) where
  abbrev IsCovered : Receiver → Type 0
  IsCovered r = any (covers h) r.outputs ≡ true

  receive-keeps :
      (r : Receiver) (i : Received)
      → IsCovered r
      → IsCovered (receive target_event_types parse_typed_event r i)
  unfolding receive
  receive-keeps r unexpected_data c = c
  receive-keeps r (new_block_events height header now events taken) c =
      any-append_left (covers h) r.outputs _ c

  loop-keeps :
      (r : Receiver) (is : List Received)
      → IsCovered r
      → IsCovered (receive_loop target_event_types parse_typed_event r is)
  unfolding receive_loop
  loop-keeps r [] c = c
  loop-keeps r (i ∷ is) c =
      loop-keeps (receive target_event_types parse_typed_event r i) is (receive-keeps r i c)

  -- A height up to the received one that lies above the last: it is the block's own or in the gap.
  receive-covers :
      (r : Receiver) (height : Int64) (header : Option Time) (now : Time) (events : List AbciEvent)
      (taken : Bool)
      → 0 < r.last_seen_height
      → r.last_seen_height < two63 - 1
      → height < two63 - 1
      → r.last_seen_height < h
      → h ≤ height
      → IsCovered (
          receive target_event_types parse_typed_event r
            (new_block_events height header now events taken))
  unfolding receive
  receive-covers r height header now events taken pos small bound above below =
      any-append_right (covers h) r.outputs _ (elim (Bool-cases (h == height)) [
        | inl own ↦
            any-append_right (covers h) (gap_before r.last_seen_height height) _ (rw own refl)
        | inr other ↦
            any-append_left (covers h) (gap_before r.last_seen_height height) _
              (gap_before-covers r.last_seen_height height h pos small bound above (ground arith))
      ])

  -- For heights that are positive and less than the greatest int64: once a block has been seen, whatever
  -- comes over this and later connections, each height above that block's up to the last one seen is
  -- that of a received block or lies in a gap that OnGap is told of.
  pub receive_loop-covers :
      (r : Receiver) (is : List Received)
      → 0 < r.last_seen_height
      → r.last_seen_height < two63 - 1
      → All HasHeight is
      → r.last_seen_height < h
      → h ≤ (receive_loop target_event_types parse_typed_event r is).last_seen_height
      → any (covers h) (receive_loop target_event_types parse_typed_event r is).outputs ≡ true
  unfolding receive_loop receive
  receive_loop-covers r [] pos small heights above below = absurd (ground arith)
  receive_loop-covers r (unexpected_data ∷ is) pos small heights above below =
      receive_loop-covers r is pos small heights.1 above below
  receive_loop-covers r (new_block_events height header now events taken ∷ is) pos small heights
        above below =
      let next =
        receive target_event_types parse_typed_event r
          (new_block_events height header now events taken) in
      elim (Bool-cases (leb h height)) [
        | inl within ↦ loop-keeps next is (
            receive-covers r height header now events taken pos small heights.0.1 above
              (ground arith))
        | inr beyond ↦
            receive_loop-covers next is heights.0.0 heights.0.1 heights.1 (ground arith) below
      ]

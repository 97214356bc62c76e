-- ===== src/Cmd/Timed.antt =====
-- The loop of cmd/backfiller.go and cmd/cmd_backfill.go with the times of its first and its last block, and
-- what it asks of the processor.
use mathlib.Core.List.{append_assoc, append-nil}
use pocket_settlement_monito.Prelude.{
  ℕ, zero, suc, ◌≤◌, ◌<◌, ◌≡◌, refl, sym, ap, ◌∙◌, ◌⊎◌, inl, inr, Bool, false, Option, List, [],
  ◌∷◌, ◌++◌, ◌==◌, if◌then◌else◌, arith, Bool-cases,
}
use pocket_settlement_monito.Prelude.Exec.{Error, context, Result, ok, err, continue}
use pocket_settlement_monito.Store.Models.{Time}
use pocket_settlement_monito.Subscriber.Types.{SettlementEvent}
use pocket_settlement_monito.Processor.Collector.{BlockProcessor}
use pocket_settlement_monito.Cmd.Backfill.{Block, fetch, fetched, wait, backfill_block, backfill}
use pocket_settlement_monito.Cmd.Backfill.Blocks.{heights_from}
use pocket_settlement_monito.Cmd.Calls.{
  asked_heights, Asked, processed, block_calls, last_time, time_or,
}

-- `firstBlockTime` and `lastBlockTime`
abbrev pub Times : Type 0
Times = Time × Time

-- `if h == fromHeight { firstBlockTime = blockTime }; lastBlockTime = blockTime`
abbrev pub timed : {Q : Type 0} → ℕ → BlockProcessor Q → BlockProcessor (Q × Times)
timed from p = record {
  process_block = λ h ts es live (q, (first, last)).
      let (r, q') = p.process_block h ts es live q in
      (r, (q', (if h == from then ts else first, ts)));
}

module _ (answer : ℕ → ℕ → Option Block) (cancelled : ℕ → ℕ → Bool) (from : ℕ) where
  abbrev pub calls : ℕ → ℕ → List Asked
  calls = block_calls (fetch answer cancelled) (λ h ts. false)

  abbrev first_of : Result Block → ℕ → (Time → Time) → Time → Time
  first_of (err e) h rest first = first
  first_of (ok (ts, events)) h rest first = rest (if h == from then ts else first)

  unfoldable pub first_time : ℕ → ℕ → Time → Time
  first_time zero h first = first
  first_time (suc n) h first = first_of (fetch answer cancelled h) h (first_time n (suc h)) first

  first_of-kept :
      (f : Result Block) (h : ℕ) (rest : Time → Time) (first : Time)
      → from < h
      → ((t : Time) → rest t ≡ t)
      → first_of f h rest first ≡ first
  first_of-kept (err e) h rest first past keeps = refl
  first_of-kept (ok (ts, es)) h rest first past keeps =
      keeps (if h == from then ts else first) ∙ ground arith

  first_time-kept : (n h : ℕ) (first : Time) → from < h → first_time n h first ≡ first
  unfolding first_time
  first_time-kept zero h first past = refl
  first_time-kept (suc n) h first past =
      first_of-kept (fetch answer cancelled h) h (first_time n (suc h)) first past
        (λ t. first_time-kept n (suc h) t (omega arith))

  -- The first block's time is the only one that is kept.
  pub first_time_lem :
      (n : ℕ) (first : Time)
      → 1 ≤ n
      → first_time n from first ≡ last_time (fetch answer cancelled) 1 from first
  unfolding first_time last_time
  first_time_lem zero first some = absurd (omega arith)
  first_time_lem (suc n) first some = by_fetch (fetch answer cancelled from)
    where
      by_fetch :
          (f : Result Block)
          → first_of f from (first_time n (suc from)) first
            ≡ time_or
                (fetch answer cancelled)
                f
                (last_time (fetch answer cancelled) 0 (suc from))
                first
      by_fetch (err e) = refl
      by_fetch (ok (ts, es)) =
          first_time-kept n (suc from) (if from == from then ts else first) (omega arith)
          ∙ ground arith

  abbrev pub times_after : ℕ → ℕ → Times → Times
  times_after n h (first, last) =
      (first_time n h first, last_time (fetch answer cancelled) n h last)

  -- A processor whose calls a view of its state notes, and which keeps another part of it.
  module _ {Q K : Type 0} (q : BlockProcessor Q) (view : Q → List Asked) (kept : Q → K)
      (notes : (h : ℕ) (ts : Time) (es : List SettlementEvent) (live : Bool) (s : Q)
        → view (q.process_block h ts es live s).1 ≡ view s ++ processed h ts es live ∷ [])
      (keeps : (h : ℕ) (ts : Time) (es : List SettlementEvent) (live : Bool) (s : Q)
        → kept (q.process_block h ts es live s).1 ≡ kept s) where
    abbrev pub AsksAll : ℕ → ℕ → Q × Times → Result (Unit {0}) × (Q × Times) → Type 0
    AsksAll n h (s, t) (r, (s', t')) =
        (r ≡ ok tt)
        × (view s' ≡ view s ++ calls n h)
        × (asked_heights (calls n h) ≡ heights_from h n)
        × (t' ≡ times_after n h t)

    abbrev pub AsksSome : ℕ → ℕ → Q × Times → Result (Unit {0}) × (Q × Times) → Type 0
    AsksSome n h (s, t) (r, (s', t')) =
        (e : Error) × (r ≡ err e) × (k : ℕ) × (k ≤ n) × (view s' ≡ view s ++ calls k h)

    abbrev pub Asks : ℕ → ℕ → Q × Times → Result (Unit {0}) × (Q × Times) → Type 0
    Asks n h (s, t) out =
        (kept out.1.0 ≡ kept s) × (AsksAll n h (s, t) out ⊎ AsksSome n h (s, t) out)

    abbrev Once : ℕ → Q × Times → Result (Unit {0}) × (Q × Times) → Type 0
    Once h (s, t) (r, (s', t')) =
        (ts : Time) × (es : List SettlementEvent) × (fetch answer cancelled h ≡ ok (ts, es))
        × (r ≡ ok tt)
        × (view s' ≡ view s ++ processed h ts es false ∷ [])
        × (t' ≡ (if h == from then ts else t.0, ts))

    -- One block.
    abbrev AsksOnce : ℕ → Q × Times → Result (Unit {0}) × (Q × Times) → Type 0
    AsksOnce h (s, t) out = (kept out.1.0 ≡ kept s) × (Once h (s, t) out ⊎ AsksSome 1 h (s, t) out)

    fetched-AsksOnce :
        (h : ℕ) (f : Result Block) (s : Q) (t : Times)
        → fetch answer cancelled h ≡ f
        → AsksOnce h (s, t) (fetched answer cancelled (timed from q) h f (s, t))
    unfolding block_calls
    fetched-AsksOnce h (err e) s t brings =
        (refl, inr (e, refl, 0, omega arith, sym (append-nil (view s))))
    fetched-AsksOnce h (ok (ts, es)) s t brings = (
      keeps h ts es false s,
      by_result (q.process_block h ts es false s).0 (q.process_block h ts es false s).1
          (notes h ts es false s),
    )
      where
        by_result :
            (r : Result (Unit {0})) (s' : Q)
            → view s' ≡ view s ++ processed h ts es false ∷ []
            → Once h (s, t) (r, (s', (if h == from then ts else t.0, ts)))
              ⊎ AsksSome 1 h (s, t) (r, (s', (if h == from then ts else t.0, ts)))
        by_result (ok _) s' noted = inl (ts, es, brings, refl, noted, refl)
        by_result (err e) s' noted = inr (e, refl, 1, omega arith, rw brings noted)

    wait-AsksOnce :
        (h : ℕ) (s : Q) (t : Times) (r : Result (Unit {0})) (s' : Q × Times)
        → AsksOnce h (s, t) (r, s')
        → AsksOnce h (s, t) (continue r (λ _. wait answer cancelled (timed from q) h) s')
    unfolding block_calls
    wait-AsksOnce h s t r s' (same, inr (e, bad, k, low, noted)) =
        rw bad (same, inr (e, refl, k, low, noted))
    wait-AsksOnce h s t r s' (same, inl (ts, es, brings, done, noted, times)) =
        rw done (elim (Bool-cases (cancelled h 11)) [
          | inl over ↦ rw over (same, inr (context, refl, 1, omega arith, rw brings noted))
          | inr on ↦ rw on (same, inl (ts, es, brings, refl, noted, times))
        ])

    backfill_block-AsksOnce :
        (h : ℕ) (s : Q) (t : Times)
        → AsksOnce h (s, t) (backfill_block answer cancelled (timed from q) h (s, t))
    unfolding block_calls
    backfill_block-AsksOnce h s t = elim (Bool-cases (cancelled h 0)) [
      | inl over ↦ rw over (refl, inr (context, refl, 0, omega arith, sym (append-nil (view s))))
      | inr on ↦
          let out = fetched answer cancelled (timed from q) h (fetch answer cancelled h) (s, t) in
          rw on (
            wait-AsksOnce h s t out.0 out.1
              (fetched-AsksOnce h (fetch answer cancelled h) s t refl))
    ]

    rest-Asks :
        (n h : ℕ) (s : Q) (t : Times) (r : Result (Unit {0})) (s' : Q) (t' : Times)
        → AsksOnce h (s, t) (r, (s', t'))
        → Asks n (suc h) (s', t') (backfill answer cancelled (timed from q) n (suc h) (s', t'))
        → Asks
            (suc n)
            h
            (s, t)
            (continue r (λ _. backfill answer cancelled (timed from q) n (suc h)) (s', t'))
    unfolding block_calls first_time last_time asked_heights
    rest-Asks n h s t r s' t' (same, inr (e, bad, k, low, noted)) rest =
        rw bad (same, inr (e, refl, k, omega arith, noted))
    rest-Asks n h s t r s' t' (same, inl (ts, es, brings, done, noted, times)) (same', rest) =
        let one = processed h ts es false ∷ [] in
        rw done (
          same' ∙ same,
          elim rest [
            | inl (fine, asked, all, after) ↦ inl (
              fine,
              asked
                  ∙ ap (λ l. l ++ calls n (suc h)) noted
                  ∙ rw brings (append_assoc (view s) one (calls n (suc h))),
              rw brings (ap (λ l. h ∷ l) all),
              after ∙ rw (brings, times) refl,
            )
            | inr (e, bad, k, low, asked) ↦ inr (
              e,
              bad,
              suc k,
              omega arith,
              asked
                  ∙ ap (λ l. l ++ calls k (suc h)) noted
                  ∙ rw brings (append_assoc (view s) one (calls k (suc h))),
            )
          ],
        )

    pub backfill-Asks :
        (n h : ℕ) (s : Q) (t : Times)
        → Asks n h (s, t) (backfill answer cancelled (timed from q) n h (s, t))
    unfolding backfill block_calls first_time last_time asked_heights
    backfill-Asks zero h s t = (refl, inl (refl, sym (append-nil (view s)), refl, refl))
    backfill-Asks (suc n) h s t =
        let out = backfill_block answer cancelled (timed from q) h (s, t) in
        rest-Asks n h s t out.0 out.1.0 out.1.1 (backfill_block-AsksOnce h s t)
          (backfill-Asks n (suc h) out.1.0 out.1.1)

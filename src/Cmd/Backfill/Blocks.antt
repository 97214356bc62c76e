-- ===== src/Cmd/Backfill/Blocks.antt =====
-- The blocks that a backfill processes.
use mathlib.Core.List.{append_assoc, append-nil, map-append}
use pocket_settlement_monito.Prelude.{
  ℕ, zero, suc, ◌≤◌, ◌≡◌, refl, sym, ap, ◌∙◌, ◌⊎◌, inl, inr, Bool, Option, List, [], ◌∷◌, ◌++◌, map,
  arith, Bool-cases,
}
use pocket_settlement_monito.Prelude.Exec.{Error, Result, ok, err, context, continue}
use pocket_settlement_monito.Processor.Collector.{BlockProcessor}
use pocket_settlement_monito.Processor.Collector.Steps.{Call, recording}
use pocket_settlement_monito.Cmd.Backfill.{Block, fetch, fetched, wait, backfill_block, backfill}

-- `from`, `from + 1`, …
abbrev pub heights_from : ℕ → ℕ → List ℕ
heights_from from zero = []
heights_from from (suc n) = from ∷ heights_from (suc from) n

abbrev pub heights : List Call → List ℕ
heights calls = map (λ c. c.height) calls

result_cases : (r : Result (Unit {0})) → (r ≡ ok tt) ⊎ ((e : Error) × (r ≡ err e))
result_cases (ok _) = inl refl
result_cases (err e) = inr (e, refl)

module _ (answer : ℕ → ℕ → Option Block) (cancelled : ℕ → ℕ → Bool) {S : Type 0}
    (p : BlockProcessor S) where
  abbrev Out : Type 0
  Out = Result (Unit {0}) × (S × List Call)

  -- One block: an error before it is processed, or one call for it.
  abbrev HandlesBlock : ℕ → List Call → Out → Type 0
  HandlesBlock h calls (r, (s, calls')) =
      ((e : Error) × (r ≡ err e) × (heights calls' ≡ heights calls))
      ⊎ ((heights calls' ≡ heights calls ++ h ∷ []) × ((r ≡ ok tt) ⊎ ((e : Error) × (r ≡ err e))))

  fetched-HandlesBlock :
      (h : ℕ) (f : Result Block) (s : S) (calls : List Call)
      → HandlesBlock h calls (fetched answer cancelled (recording p) h f (s, calls))
  fetched-HandlesBlock h (ok (ts, events)) s calls =
      inr (map-append (λ c. c.height) calls _, result_cases _)
  fetched-HandlesBlock h (err e) s calls = inl (e, refl, refl)

  wait-HandlesBlock :
      (h : ℕ) (calls : List Call) (r : Result (Unit {0})) (s : S) (calls' : List Call)
      → HandlesBlock h calls (r, (s, calls'))
      → HandlesBlock h calls (continue r (λ _. wait answer cancelled (recording p) h) (s, calls'))
  wait-HandlesBlock h calls r s calls' (inl (e, bad, same)) = rw bad (inl (e, refl, same))
  wait-HandlesBlock h calls r s calls' (inr (one, inr (e, bad))) = rw bad (inr (one, inr (e, refl)))
  wait-HandlesBlock h calls r s calls' (inr (one, inl done)) =
      rw done (elim (Bool-cases (cancelled h 11)) [
        | inl over ↦ rw over (inr (one, inr (context, refl)))
        | inr on ↦ rw on (inr (one, inl refl))
      ])

  backfill_block-HandlesBlock :
      (h : ℕ) (s : S) (calls : List Call)
      → HandlesBlock h calls (backfill_block answer cancelled (recording p) h (s, calls))
  backfill_block-HandlesBlock h s calls = elim (Bool-cases (cancelled h 0)) [
    | inl over ↦ rw over (inl (context, refl, refl))
    | inr on ↦
        let out = fetched answer cancelled (recording p) h (fetch answer cancelled h) (s, calls) in
        rw on (
          wait-HandlesBlock h calls out.0 out.1.0 out.1.1
            (fetched-HandlesBlock h (fetch answer cancelled h) s calls))
  ]

  abbrev HandlesRange : ℕ → ℕ → List Call → Out → Type 0
  HandlesRange n from calls (r, (s, calls')) =
      (k : ℕ) × (heights calls' ≡ heights calls ++ heights_from from k)
      × (((r ≡ ok tt) × (k ≡ n)) ⊎ ((e : Error) × (r ≡ err e) × (k ≤ n)))

  backfill-HandlesRange :
      (n from : ℕ) (s : S) (calls : List Call)
      → HandlesRange n from calls (backfill answer cancelled (recording p) n from (s, calls))
  unfolding backfill
  backfill-HandlesRange zero from s calls = (0, sym (append-nil (heights calls)), inl (refl, refl))
  backfill-HandlesRange (suc n) from s calls =
      let out = backfill_block answer cancelled (recording p) from (s, calls) in
      continued out.0 out.1.0 out.1.1 (backfill_block-HandlesBlock from s calls)
        (backfill-HandlesRange n (suc from) out.1.0 out.1.1)
    where
      continued :
          (r : Result (Unit {0})) (s' : S) (calls' : List Call)
          → HandlesBlock from calls (r, (s', calls'))
          → HandlesRange n
              (suc from)
              calls'
              (backfill answer cancelled (recording p) n (suc from) (s', calls'))
          → HandlesRange
              (suc n)
              from
              calls
              (continue r (λ _. backfill answer cancelled (recording p) n (suc from)) (s', calls'))
      continued r s' calls' (inl (e, bad, same)) rest =
          rw bad (0, same ∙ sym (append-nil (heights calls)), inr (e, refl, omega arith))
      continued r s' calls' (inr (one, inr (e, bad))) rest =
          rw bad (1, one, inr (e, refl, omega arith))
      continued r s' calls' (inr (one, inl done)) (k, more, end) = rw done (
        suc k,
        more
            ∙ ap (λ l. l ++ heights_from (suc from) k) one
            ∙ append_assoc (heights calls) (from ∷ []) (heights_from (suc from) k),
        elim end [
          | inl (all, same) ↦ inl (all, ap suc same)
          | inr (e, bad, part) ↦ inr (e, bad, omega arith)
        ],
      )

  -- A backfill of `n` blocks hands the heights from its first one on to ProcessBlock, in order and each
  -- once: all `n` of them if it ends without an error, and at most `n` if it ends with one.
  pub backfill-heights :
      (n from : ℕ) (s : S)
      → let (r, (s', calls)) = backfill answer cancelled (recording p) n from (s, []) in
        (k : ℕ) × (heights calls ≡ heights_from from k)
        × (((r ≡ ok tt) × (k ≡ n)) ⊎ ((e : Error) × (r ≡ err e) × (k ≤ n)))
  backfill-heights n from s = backfill-HandlesRange n from s []

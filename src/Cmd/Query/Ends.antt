-- ===== src/Cmd/Query/Ends.antt =====
-- How a query command ends: its checks of the flags, the opening of the store, the query and the output.
use pocket_settlement_monito.Prelude.{
  String, Bool-cases, ◌≡◌, refl, sym, subst, ◌⊎◌, inl, inr, Bool, true, false, List, map, Option,
  none, some, if◌then◌else◌, arith,
}
use pocket_settlement_monito.Prelude.Eq.{string_eq}
use pocket_settlement_monito.Prelude.Exec.{Error, store, Result, ok, err, Exec}
use pocket_settlement_monito.Prelude.Words.{Int64}
use pocket_settlement_monito.Subscriber.Types.{Bytes}
use pocket_settlement_monito.Store.Models.{Time}
use pocket_settlement_monito.Store.Db.{Db, Fails}
use pocket_settlement_monito.Store.Query.Laws.{Answers, IsAnswer}
use pocket_settlement_monito.Cmd.Resolve.{HeightFlag, height, date, datetime, neither}
use pocket_settlement_monito.Cmd.Output.{Chunk}
use pocket_settlement_monito.Cmd.Output.Rendered.{
  IsRendering, IsFormat, table, csv, json, print_rows-IsRendering,
}
use pocket_settlement_monito.Cmd.Query.{
  QueryFlags, Bounds, parse_bound, bounds, parse_query_filters, validate_output_format,
  invalid_output, opening, invalid_bound, querying, QueryRun, refused, with_bounds, with_store,
  print_results,
}

-- The rows of a query's answer, as they are scanned.
abbrev pub Scanned :
    {R Q : Type 0} → (R → Type 0) → (R → R → Bool) → Int64 → List R → (R → Q) → List Q → Type 0
Scanned {R} Wants before limit rows scan results =
    (answer : List R) × ((results ≡ map scan answer) × IsAnswer Wants before limit rows answer)

-- A query returns a failed statement's error, or the results that it is to give.
abbrev pub Outcome : {Q : Type 0} → Db → (List Q → Type 0) → Result (List Q) → Type 0
Outcome {Q} db Rows r =
    ((r ≡ err store) × Fails db) ⊎ ((results : List Q) × ((r ≡ ok results) × Rows results))

pub Answers-Outcome :
    {R Q : Type 0} (Wants : R → Type 0) (before : R → R → Bool) (limit : Int64) (rows : List R)
    (scan : R → Q) (db : Db) (m : Exec Db (List Q))
    → Answers Wants before limit rows scan db (m db)
    → Outcome db (Scanned Wants before limit rows scan) (m db).0
Answers-Outcome Wants before limit rows scan db m answers = elim answers [
  | inl failed ↦ inl failed
  | inr (same, (answer, (found, is_answer))) ↦
      inr (map scan answer, (found, (answer, (refl, is_answer))))
]

-- How a command ends: `before` is printed before the query, and `Rows db b` are the results that it is to
-- print.
pub data Ends {Q : Type 0} (q : QueryFlags) (opened : Result Db) (before : List Chunk)
    (columns : List Bytes) (cells : Q → List Bytes) (Rows : Db → Bounds → List Q → Type 0)
    : QueryRun → Type 0 where
  bad_output :
      (IsFormat q.output → ⊥) → Ends q opened before columns cells Rows (refused invalid_output)
  not_opened :
      (e : Error)
      → IsFormat q.output
      → opened ≡ err e
      → Ends q opened before columns cells Rows (refused (opening e))
  bad_bound :
      IsFormat q.output
      → (q.from ≡ some neither) ⊎ (q.to ≡ some neither)
      → Ends q opened before columns cells Rows (refused invalid_bound)
  query_failed :
      (db : Db)
      → opened ≡ ok db
      → Fails db
      → Ends q opened before columns cells Rows
          (record { printed = before; error = some (querying store) })
  prints :
      (db : Db) (b : Bounds) (results : List Q) (chunks : List Chunk)
      → opened ≡ ok db
      → parse_query_filters q ≡ some b
      → Rows db b results
      → IsRendering columns (map cells results) q.output chunks
      → Ends q opened before columns cells Rows (record { printed = chunks; error = none })

texts-IsFormat :
    (output : String)
    → (output ≡ "table") ⊎ ((output ≡ "json") ⊎ (output ≡ "csv"))
    → IsFormat output
texts-IsFormat output (inl e) = subst IsFormat (sym e) table
texts-IsFormat output (inr (inl e)) = subst IsFormat (sym e) json
texts-IsFormat output (inr (inr e)) = subst IsFormat (sym e) csv

IsFormat-valid : (output : String) → IsFormat output → validate_output_format output ≡ true
IsFormat-valid _ table = refl
IsFormat-valid _ csv = refl
IsFormat-valid _ json = refl

pub IsFormat-cases :
    (output : String)
    → ((validate_output_format output ≡ true) × IsFormat output)
      ⊎ ((validate_output_format output ≡ false) × (IsFormat output → ⊥))
IsFormat-cases output = elim (Bool-cases (validate_output_format output)) [
  | inl valid ↦ inl (
    valid,
    texts-IsFormat output (
        ground (
          arith,
          string_eq.beq_iff output "table",
          string_eq.beq_iff output "json",
          string_eq.beq_iff output "csv",
        )),
  )
  | inr invalid ↦ inr (invalid, λ format. absurd (ground (arith, IsFormat-valid output format)))
]

bounds-cases :
    (from to : Option (Time × Int64))
    → ((b : Bounds) × (bounds from to ≡ some b))
      ⊎ ((bounds from to ≡ none) × ((from ≡ none) ⊎ (to ≡ none)))
bounds-cases (some f) (some t) = inl (_, refl)
bounds-cases (some f) none = inr (refl, inr refl)
bounds-cases none to = inr (refl, inl refl)

parse_bound-none : (flag : Option HeightFlag) → parse_bound flag ≡ none → flag ≡ some neither
unfolding parse_bound
parse_bound-none none e = absurd (ground arith)
parse_bound-none (some (height h)) e = absurd (ground arith)
parse_bound-none (some (date d)) e = absurd (ground arith)
parse_bound-none (some (datetime t)) e = absurd (ground arith)
parse_bound-none (some neither) e = refl

module _ {Q : Type 0} (q : QueryFlags) (before : List Chunk) (columns : List Bytes)
    (cells : Q → List Bytes) (Rows : Db → Bounds → List Q → Type 0)
    (body : Db → Bounds → Result (List Q))
    (outcome : (db : Db) (b : Bounds) → Outcome db (Rows db b) (body db b)) where
  results-Ends :
      (db : Db) (b : Bounds)
      → IsFormat q.output
      → parse_query_filters q ≡ some b
      → Ends q
          (ok db)
          before
          columns
          cells
          Rows
          (print_results before q.output columns cells (body db b))
  results-Ends db b format e = elim (outcome db b) [
    | inl (failed, fails) ↦ rw failed (query_failed db refl fails)
    | inr (results, (found, answer)) ↦ rw found (
        prints db b results _ refl e answer
          (print_rows-IsRendering columns (map cells results) q.output format))
  ]

  bounds-Ends :
      (db : Db)
      → IsFormat q.output
      → Ends q (ok db) before columns cells Rows (
          with_bounds
            (λ b. print_results before q.output columns cells (body db b))
            (parse_query_filters q))
  bounds-Ends db format = elim (bounds-cases (parse_bound q.from) (parse_bound q.to)) [
    | inl (b, e) ↦ rw e (results-Ends db b format e)
    | inr (e, inl from) ↦ rw e (bad_bound format (inl (parse_bound-none q.from from)))
    | inr (e, inr to) ↦ rw e (bad_bound format (inr (parse_bound-none q.to to)))
  ]

  store-Ends :
      (opened : Result Db)
      → IsFormat q.output
      → Ends q opened before columns cells Rows
          (with_store q opened (λ db b. print_results before q.output columns cells (body db b)))
  store-Ends (ok db) format = bounds-Ends db format
  store-Ends (err e) format = not_opened e format refl

  pub run-Ends :
      (opened : Result Db)
      → Ends q opened before columns cells Rows (
          if validate_output_format q.output
          then with_store q opened (λ db b. print_results before q.output columns cells (body db b))
          else refused invalid_output)
  run-Ends opened = elim (IsFormat-cases q.output) [
    | inl (valid, format) ↦ rw valid (store-Ends opened format)
    | inr (invalid, bad) ↦ rw invalid (bad_output bad)
  ]

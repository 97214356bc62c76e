-- ===== src/Store/Query/Laws.antt =====
-- What a SELECT with WHERE, ORDER BY and LIMIT gives, without telling how.
use pocket_settlement_monito.Prelude.{
  ℕ, ◌≤◌, ◌≡◌, refl, ◌⊎◌, inl, inr, Bool, true, false, not, List, [], ◌++◌, All, All-select_kept,
  All-imp, select, take, drop, take-drop, length, length-take-le, take-full, arith, Bool-cases, map,
  ◌↔◌,
}
use pocket_settlement_monito.Prelude.Words.{Int64, slt}
use pocket_settlement_monito.Prelude.Sorting.{
  sort, sort-perm, sort-All, sort-IsSorted, IsSorted, select-perm,
}
use pocket_settlement_monito.Prelude.Exec.{Result, ok, err, store}
use pocket_settlement_monito.Store.Tables.{Tables}
use pocket_settlement_monito.Store.Db.{Db, Fails, query, statement-Implements}
use mathlib.Core.List.{Perm, append-nil}
use mathlib.Core.List.Perm
use pocket_settlement_monito.Store.Query.{stays_before, later_period, select_rows}

-- `result` answers a SELECT over `table`: it is the first part of the wanted rows in order, and all of
-- them, where the limit does not cut it off.
pub record IsAnswer {R : Type 0} (Wants : R → Type 0) (before : R → R → Bool) (limit : Int64)
    (table result : List R) : Type 0 where
  pub cut_off : List R
  pub others : List R
  pub every_row : Perm ((result ++ cut_off) ++ others) table
  pub wanted : All Wants (result ++ cut_off)
  pub not_wanted : All (λ r. Wants r → ⊥) others
  pub in_order : IsSorted before (result ++ cut_off)
  pub no_limit : slt 0 limit ≡ false → cut_off ≡ []
  pub at_limit :
      slt 0 limit ≡ true → (length result ≤ limit) × ((cut_off ≡ []) ⊎ (length result ≡ limit))

module _ {R : Type 0} (Wants : R → Type 0) (wanted : R → Bool)
    (decides : (r : R) → (wanted r ≡ true) ↔ Wants r) (before : R → R → Bool)
    (total : (x y : R) → before x y ≡ false → before y x ≡ true)
    (trans : (x y z : R) → before x y ≡ true → before y z ≡ true → before x z ≡ true) where
  abbrev sorted : List R → List R
  sorted rows = sort before (select wanted rows)

  abbrev rejected : List R → List R
  rejected rows = select (λ r. not (wanted r)) rows

  sorted-perm : (rows : List R) → Perm (sorted rows ++ rejected rows) rows
  sorted-perm rows =
      Perm.trans (Perm.append_right (rejected rows) (sort-perm before (select wanted rows)))
        (select-perm wanted rows)

  sorted-wanted : (rows : List R) → All Wants (sorted rows)
  sorted-wanted rows =
      sort-All before Wants (select wanted rows)
        (All-imp _ Wants (select wanted rows) (λ r. (decides r).0) (All-select_kept wanted rows))

  rejected-not_wanted : (rows : List R) → All (λ r. Wants r → ⊥) (rejected rows)
  rejected-not_wanted rows =
      All-imp _ _ (rejected rows) (λ r h w. absurd (ground (arith, (decides r).1 w)))
        (All-select_kept (λ r. not (wanted r)) rows)

  -- The rows that are given back, of those in order.
  answer :
      (limit : Int64) (rows result rest : List R)
      → result ++ rest ≡ sorted rows
      → (slt 0 limit ≡ false → rest ≡ [])
      → (slt 0 limit ≡ true → (length result ≤ limit) × ((rest ≡ []) ⊎ (length result ≡ limit)))
      → IsAnswer Wants before limit rows result
  answer limit rows result rest e n l = record {
    cut_off = rest;
    others = rejected rows;
    every_row = rw e (sorted-perm rows);
    wanted = rw e (sorted-wanted rows);
    not_wanted = rejected-not_wanted rows;
    in_order = rw e (sort-IsSorted before total trans (select wanted rows));
    no_limit = n;
    at_limit = l;
  }

  pub select_rows-IsAnswer :
      (limit : Int64) (rows : List R)
      → IsAnswer Wants before limit rows (select_rows wanted before limit rows)
  unfolding select_rows
  select_rows-IsAnswer limit rows = elim (Bool-cases (slt 0 limit)) [
    | inl limited ↦ rw limited (
        answer limit rows (take limit (sorted rows)) (drop limit (sorted rows))
          (take-drop limit (sorted rows)) (λ h. absurd (ground arith))
          (λ _. (length-take-le limit (sorted rows), take-full limit (sorted rows))))
    | inr free ↦ rw free (
        answer limit rows (sorted rows) [] (append-nil (sorted rows)) (λ _. refl)
          (λ h. absurd (ground arith)))
  ]

pub stays_before_total :
    (h i h' i' : Int64) → stays_before h i h' i' ≡ false → stays_before h' i' h i ≡ true
stays_before_total h i h' i' e = ground arith

pub stays_before_trans :
    (h i h' i' h'' i'' : Int64)
    → stays_before h i h' i' ≡ true
    → stays_before h' i' h'' i'' ≡ true
    → stays_before h i h'' i'' ≡ true
stays_before_trans h i h' i' h'' i'' a b = ground arith

-- A query's outcome: a failed statement's error, or the rows of an answer, scanned, and no table changes.
abbrev pub Answers :
    {R Q : Type 0}
    → (R → Type 0)
    → (R → R → Bool)
    → Int64
    → List R
    → (R → Q)
    → Db
    → Result (List Q) × Db
    → Type 0
Answers {R} Wants before limit table scan db (r, after) =
    ((r ≡ err store) × Fails db)
    ⊎ ((after.tables ≡ db.tables)
        × ((rows : List R) × ((r ≡ ok (map scan rows)) × IsAnswer Wants before limit table rows)))

pub query-Answers :
    {R Q : Type 0} (table : Tables → List R) (scan : R → Q) (Wants : R → Type 0) (wanted : R → Bool)
    (decides : (r : R) → (wanted r ≡ true) ↔ Wants r) (before : R → R → Bool)
    (total : (x y : R) → before x y ≡ false → before y x ≡ true)
    (trans : (x y z : R) → before x y ≡ true → before y z ≡ true → before x z ≡ true)
    (limit : Int64) (db : Db)
    → Answers Wants before limit
        (table db.tables)
        scan
        db
        (query (λ t. map scan (select_rows wanted before limit (table t))) db)
query-Answers table scan Wants wanted decides before total trans limit db =
    let rows = select_rows wanted before limit (table db.tables) in
    let select =
      statement-Implements (λ t. (map scan (select_rows wanted before limit (table t)), t)) in
    elim (select.at db) [
      | inl failed ↦ inl failed
      | inr (e, same, _) ↦ inr (
        same,
        (
          rows,
          (e, select_rows-IsAnswer Wants wanted decides before total trans limit (table db.tables)),
        ),
      )
    ]

pub later_period_total : (a b : ℕ) → later_period a b ≡ false → later_period b a ≡ true
later_period_total a b e = ground arith

pub later_period_trans :
    (a b c : ℕ) → later_period a b ≡ true → later_period b c ≡ true → later_period a c ≡ true
later_period_trans a b c e f = ground arith

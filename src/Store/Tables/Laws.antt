-- ===== src/Store/Tables/Laws.antt =====
-- What INSERT OR IGNORE and the upsert do to a table.

use pocket_settlement_monito.Prelude.{
  ℕ, ◌+◌, ◌≡◌, refl, inl, inr, true, false, none, some, List, [], ◌∷◌, ◌++◌, any-append_left,
  any-append_right, Bool-cases, if◌then◌else◌, arith,
}
use pocket_settlement_monito.Prelude.Eq.{Eq, ◌=?◌, =?_refl}
use pocket_settlement_monito.Store.Models.{Totals, SummaryRow, zero_totals}
use pocket_settlement_monito.Store.Tables.{
  Table, taken, insert_or_ignore, insert_keyed, upsert, get_summary,
}

module _ {K R : Type 0} ⦃e : Eq K⦄ (key : R → K) where
  -- The UNIQUE constraint: no two rows have one key.
  abbrev pub KeysDistinct : List R → Type 0
  KeysDistinct [] = Unit
  KeysDistinct (r ∷ rows) = (taken key (key r) rows ≡ false) × KeysDistinct rows

  pub taken-append_self : (r : R) (rows : List R) → taken key (key r) (rows ++ r ∷ []) ≡ true
  taken-append_self r rows = any-append_right _ rows (r ∷ []) (rw (=?_refl (key r)))

  pub not_taken-append :
      (k : K) (rows : List R) (x : R)
      → taken key k rows ≡ false
      → (key x =? k) ≡ false
      → taken key k (rows ++ x ∷ []) ≡ false
  not_taken-append k [] x h n = rw n
  not_taken-append k (r ∷ rows) x h n = ground (arith, not_taken-append k rows x)

  =?-false_sym : (a b : K) → (a =? b) ≡ false → (b =? a) ≡ false
  =?-false_sym a b h = ground (arith, e.beq_iff a b, e.beq_iff b a)

  pub KeysDistinct-append :
      (rows : List R) (x : R)
      → KeysDistinct rows
      → taken key (key x) rows ≡ false
      → KeysDistinct (rows ++ x ∷ [])
  KeysDistinct-append [] x d h = (refl, tt)
  KeysDistinct-append (r ∷ rows) x d h = elim (Bool-cases (key r =? key x)) [
    | inl eq ↦ ground (arith)
    | inr ne ↦ (
      not_taken-append (key r) rows x d.0 (=?-false_sym (key r) (key x) ne),
      KeysDistinct-append rows x d.1 (ground arith),
    )
  ]

module _ {K R : Type 0} ⦃e : Eq K⦄ (key : R → K) (make : ℕ → R) (t : Table R) where
  abbrev next_row : R
  next_row = make (t.last_id + 1)

  pub insert_or_ignore-taken :
      taken key (key next_row) t.rows ≡ true → insert_or_ignore key make t ≡ (t, none)
  unfolding insert_or_ignore
  insert_or_ignore-taken h = rw h

  pub insert_or_ignore_new :
      taken key (key next_row) t.rows ≡ false
      → insert_or_ignore key make t
        ≡ (record { rows = t.rows ++ next_row ∷ []; last_id = t.last_id + 1 }, some (t.last_id + 1))
  unfolding insert_or_ignore
  insert_or_ignore_new h = rw h

  -- A key that is taken stays taken.
  pub insert_or_ignore_keeps :
      (k : K) → taken key k t.rows ≡ true → taken key k (insert_or_ignore key make t).0.rows ≡ true
  insert_or_ignore_keeps k h = elim (Bool-cases (taken key (key next_row) t.rows)) [
    | inl old ↦ rw (insert_or_ignore-taken old) h
    | inr new ↦ rw (insert_or_ignore_new new) (any-append_left _ t.rows (next_row ∷ []) h)
  ]

  -- Afterwards the row's key is taken.
  pub insert_or_ignore_self : taken key (key next_row) (insert_or_ignore key make t).0.rows ≡ true
  insert_or_ignore_self = elim (Bool-cases (taken key (key next_row) t.rows)) [
    | inl old ↦ rw (insert_or_ignore-taken old) old
    | inr new ↦ rw (insert_or_ignore_new new) (taken-append_self key next_row t.rows)
  ]

  pub insert_or_ignore-KeysDistinct :
      KeysDistinct key t.rows → KeysDistinct key (insert_or_ignore key make t).0.rows
  insert_or_ignore-KeysDistinct d = elim (Bool-cases (taken key (key next_row) t.rows)) [
    | inl old ↦ rw (insert_or_ignore-taken old) d
    | inr new ↦ rw (insert_or_ignore_new new) (KeysDistinct-append key t.rows next_row d new)
  ]

module _ {K R : Type 0} ⦃e : Eq K⦄ (key : R → K) (r : R) (rows : List R) where
  pub insert_keyed-taken : taken key (key r) rows ≡ true → insert_keyed key r rows ≡ rows
  unfolding insert_keyed
  insert_keyed-taken h = rw h

  pub insert_keyed_keeps :
      (k : K) → taken key k rows ≡ true → taken key k (insert_keyed key r rows) ≡ true
  unfolding insert_keyed
  insert_keyed_keeps k h = elim (Bool-cases (taken key (key r) rows)) [
    | inl old ↦ rw old h
    | inr new ↦ rw new (any-append_left _ rows (r ∷ []) h)
  ]

  pub insert_keyed_self : taken key (key r) (insert_keyed key r rows) ≡ true
  unfolding insert_keyed
  insert_keyed_self = elim (Bool-cases (taken key (key r) rows)) [
    | inl old ↦ rw old old
    | inr new ↦ rw new (taken-append_self key r rows)
  ]

  pub insert_keyed-KeysDistinct : KeysDistinct key rows → KeysDistinct key (insert_keyed key r rows)
  unfolding insert_keyed
  insert_keyed-KeysDistinct d = elim (Bool-cases (taken key (key r) rows)) [
    | inl old ↦ rw old d
    | inr new ↦ rw new (KeysDistinct-append key rows r d new)
  ]

module _ {K : Type 0} ⦃e : Eq K⦄ where
  -- A read after an upsert: the new totals at its key, and at any other key what was there.
  pub get_summary-upsert :
      (k j : K) (t : Totals) (rows : List (SummaryRow K))
      → get_summary j (upsert k t rows) ≡ (if k =? j then t else get_summary j rows)
  unfolding get_summary upsert
  get_summary-upsert k j t [] = refl
  get_summary-upsert k j t (r ∷ rows) =
      ground
        (arith, e.beq_iff r.key k, e.beq_iff r.key j, e.beq_iff k j, get_summary-upsert k j t rows)

  pub get_summary-nil : (k : K) → get_summary k [] ≡ zero_totals
  unfolding get_summary
  get_summary-nil k = refl

  pub get_summary-upsert_same :
      (k : K) (t : Totals) (rows : List (SummaryRow K)) → get_summary k (upsert k t rows) ≡ t
  get_summary-upsert_same k t rows = rw (get_summary-upsert k k t rows, =?_refl k)

  pub get_summary-upsert_other :
      (k j : K) (t : Totals) (rows : List (SummaryRow K))
      → (k =? j) ≡ false
      → get_summary j (upsert k t rows) ≡ get_summary j rows
  get_summary-upsert_other k j t rows n = rw (get_summary-upsert k j t rows, n)

  abbrev pub row_key : SummaryRow K → K
  row_key r = r.key

  taken-upsert :
      (k j : K) (t : Totals) (rows : List (SummaryRow K))
      → (k =? j) ≡ false
      → taken row_key j rows ≡ false
      → taken row_key j (upsert k t rows) ≡ false
  unfolding upsert
  taken-upsert k j t [] n h = rw n
  taken-upsert k j t (r ∷ rows) n h = ground (arith, taken-upsert k j t rows n)

  -- An upsert keeps one row to a key.
  pub upsert-KeysDistinct :
      (k : K) (t : Totals) (rows : List (SummaryRow K))
      → KeysDistinct row_key rows
      → KeysDistinct row_key (upsert k t rows)
  unfolding upsert
  upsert-KeysDistinct k t [] d = (refl, tt)
  upsert-KeysDistinct k t (r ∷ rows) d = ground (
    arith,
    e.beq_iff r.key k,
    e.beq_iff k r.key,
    taken-upsert k r.key t rows,
    upsert-KeysDistinct k t rows d.1,
  )

-- ===== src/Store/Db.antt =====
-- The database as the code sees it: its tables, and the engine, which may fail at any statement. The
-- engine's choices are a list: each statement takes the next one, and `true` means that it returns an
-- error. When the list is used up the statements succeed.
pub mod Keeps
pub mod Walk
use pocket_settlement_monito.Prelude.{
  Bool, true, false, List, [], ◌∷◌, any, ◌≡◌, refl, ◌⊎◌, inl, inr, arith, subst, fun_ext, ◌∙◌,
}
use pocket_settlement_monito.Prelude.Exec.{
  Error, store, Result, ok, err, Exec, pure, continue, ◌>>=◌, ◌>>◌, for_each,
}
use pocket_settlement_monito.Store.Tables.{Tables}

pub record Db : Type 0 where
  pub tables : Tables
  pub failures : List Bool

module _ {A : Type 0} where
  abbrev pub attempt : List Bool → (Tables → A × Tables) → Tables → Result A × Db
  attempt [] f t = let (a, t') = f t in (ok a, record { tables = t'; failures = [] })
  attempt (true ∷ fs) f t = (err store, record { tables = t; failures = fs })
  attempt (false ∷ fs) f t = let (a, t') = f t in (ok a, record { tables = t'; failures = fs })

  -- One statement: it fails and changes nothing, or does what it says.
  pub statement : (Tables → A × Tables) → Exec Db A
  statement f db = attempt db.failures f db.tables

  abbrev close_transaction : Tables → Result A × Db → Result A × Db
  close_transaction before (ok a, db) = (ok a, db)
  close_transaction before (err e, db) = (err e, record db { tables = before })

-- A statement that changes the tables and returns nothing.
abbrev pub execute : (Tables → Tables) → Exec Db Unit
execute f = statement (λ t. (tt, f t))

-- A SELECT.
abbrev pub query : {A : Type 0} → (Tables → A) → Exec Db A
query f = statement (λ t. (f t, t))

-- BEGIN, COMMIT and PREPARE write no row.
abbrev pub no_write : Exec Db Unit
no_write = execute (λ t. t)

-- `tx := BeginTx(); defer tx.Rollback(); …; tx.Commit()`: an error on the way out, that of Begin and of
-- Commit too, leaves the tables as they were.
pub transaction : {A : Type 0} → Exec Db A → Exec Db A
transaction body db = close_transaction db.tables ((do no_write; a ← body; no_write; pure a) db)

-- A statement of the engine's list returns an error.
abbrev pub Fails : Db → Type 0
Fails db = any (λ f. f) db.failures ≡ true

-- `m` either returns the database's error, for a statement that failed, or has the value and the effect
-- of `f`.
pub record Implements {A : Type 0} (m : Exec Db A) (f : Tables → A × Tables) : Type 0 where
  pub at :
      (db : Db)
      → (((m db).0 ≡ err store) × Fails db)
        ⊎ (((m db).0 ≡ ok (f db.tables).0)
            × ((m db).1.tables ≡ (f db.tables).1)
            × (Fails (m db).1 → Fails db))

module _ {A : Type 0} where
  attempt_cases :
      (fs : List Bool) (f : Tables → A × Tables) (t : Tables)
      → (((attempt fs f t).0 ≡ err store) × (any (λ f. f) fs ≡ true))
        ⊎ (((attempt fs f t).0 ≡ ok (f t).0)
            × ((attempt fs f t).1.tables ≡ (f t).1)
            × (Fails (attempt fs f t).1 → any (λ f. f) fs ≡ true))
  attempt_cases [] f t = inr (refl, refl, λ h. h)
  attempt_cases (true ∷ fs) f t = inl (refl, refl)
  attempt_cases (false ∷ fs) f t = inr (refl, refl, λ h. h)

  pub statement-Implements : (f : Tables → A × Tables) → Implements (statement f) f
  unfolding statement
  statement-Implements f = record { at = λ db. attempt_cases db.failures f db.tables }

  pub pure-Implements : (a : A) → Implements (pure a) (λ t. (a, t))
  pure-Implements a = record { at = λ db. inr (refl, refl, λ h. h) }

module _ {A B : Type 0} where
  continue_cases :
      (r : Result A) (start db : Db) (p : A × Tables) (k : A → Exec Db B)
      (g : A → Tables → B × Tables)
      → ((a : A) → Implements (k a) (g a))
      → ((r ≡ err store) × Fails start)
        ⊎ ((r ≡ ok p.0) × (db.tables ≡ p.1) × (Fails db → Fails start))
      → (((continue r k db).0 ≡ err store) × Fails start)
        ⊎ (((continue r k db).0 ≡ ok (g p.0 p.1).0)
            × ((continue r k db).1.tables ≡ (g p.0 p.1).1)
            × (Fails (continue r k db).1 → Fails start))
  continue_cases r start db p k g h (inl (e, f)) = inl (rw e, f)
  continue_cases r start db p k g h (inr (e, t, back)) =
      rw (e, ← t)
        (elim ((h p.0).at db) [
          | inl (failed, f) ↦ inl (failed, back f)
          | inr (done, tables, f) ↦ inr (done, tables, λ x. back (f x))
        ])

  pub bind-Implements :
      (m : Exec Db A) (k : A → Exec Db B) (f : Tables → A × Tables) (g : A → Tables → B × Tables)
      → Implements m f
      → ((a : A) → Implements (k a) (g a))
      → Implements (m >>= k) (λ t. g (f t).0 (f t).1)
  bind-Implements m k f g hm hk = record {
    at = λ db. continue_cases (m db).0 db (m db).1 (f db.tables) k g hk (hm.at db);
  }

-- `f x` for each `x`, in order.
abbrev pub in_turn {ℓ} : {A : Type ℓ} → (A → Tables → Tables) → List A → Tables → Tables
in_turn f [] t = t
in_turn f (x ∷ xs) t = in_turn f xs (f x t)

pub for_each-Implements {ℓ} :
    {A : Type ℓ} (m : A → Exec Db Unit) (f : A → Tables → Tables) (xs : List A)
    → ((x : A) → Implements (m x) (λ t. (tt, f x t)))
    → Implements (for_each m xs) (λ t. (tt, in_turn f xs t))
for_each-Implements m f [] h = pure-Implements tt
for_each-Implements m f (x ∷ xs) h =
    bind-Implements (m x) (λ _. for_each m xs) (λ t. (tt, f x t)) (λ _ t. (tt, in_turn f xs t))
      (h x) (λ _. for_each-Implements m f xs h)

-- A transaction that ends well has the effect of its body; one that fails has none.
pub record IsAtomic {A : Type 0} (m : Exec Db A) (f : Tables → A × Tables) : Type 0 where
  pub at :
      (db : Db)
      → (((m db).0 ≡ err store) × ((m db).1.tables ≡ db.tables) × Fails db)
        ⊎ (((m db).0 ≡ ok (f db.tables).0) × ((m db).1.tables ≡ (f db.tables).1))

module _ {A : Type 0} where
  close_cases :
      (r : Result A × Db) (p : A × Tables) (before : Tables) {F G : Type 0}
      → ((r.0 ≡ err store) × F) ⊎ ((r.0 ≡ ok p.0) × (r.1.tables ≡ p.1) × G)
      → (((close_transaction before r).0 ≡ err store)
          × ((close_transaction before r).1.tables ≡ before)
          × F)
        ⊎ (((close_transaction before r).0 ≡ ok p.0)
            × ((close_transaction before r).1.tables ≡ p.1))
  close_cases (ok a, db) p before h = ground arith
  close_cases (err e, db) p before h = ground arith

  pub transaction-IsAtomic :
      (m : Exec Db A) (f : Tables → A × Tables) → Implements m f → IsAtomic (transaction m) f
  unfolding transaction
  transaction-IsAtomic m f h = record {
    at = λ db. close_cases (body db) (f db.tables) db.tables (whole.at db);
  }
    where
      body : Exec Db A
      body = no_write >>= λ _. m >>= λ a. no_write >>= λ _. pure a

      close : (a : A) → Implements (no_write >>= λ _. pure a) (λ t. (a, t))
      close a =
          bind-Implements no_write (λ _. pure a) (λ t. (tt, t)) (λ _ t. (a, t))
            (statement-Implements (λ t. (tt, t))) (λ _. pure-Implements a)

      whole : Implements body f
      whole =
          bind-Implements no_write (λ _. m >>= λ a. no_write >>= λ _. pure a) (λ t. (tt, t))
            (λ _ t. f t) (statement-Implements (λ t. (tt, t)))
            (λ _. bind-Implements m (λ a. no_write >>= λ _. pure a) f (λ a t. (a, t)) h close)

module _ {A : Type 0} (m : Exec Db A) (f g : Tables → A × Tables) where
  pub Implements-ext : ((t : Tables) → f t ≡ g t) → Implements m f → Implements m g
  Implements-ext e h = subst (Implements m) (fun_ext e) h

pub execute-Implements : (f : Tables → Tables) → Implements (execute f) (λ t. (tt, f t))
execute-Implements f = statement-Implements (λ t. (tt, f t))

-- One statement, then the rest.
pub then-Implements :
    (m k : Exec Db Unit) (f g : Tables → Tables)
    → Implements m (λ t. (tt, f t))
    → Implements k (λ t. (tt, g t))
    → Implements (m >>= λ _. k) (λ t. (tt, g (f t)))
then-Implements m k f g hm hk =
    bind-Implements m (λ _. k) (λ t. (tt, f t)) (λ _ t. (tt, g t)) hm (λ _. hk)

-- A loop leaves a field alone if each of its operations does.
pub in_turn_frame :
    {A F : Type 0} (f : A → Tables → Tables) (field : Tables → F)
    → ((x : A) (t : Tables) → field (f x t) ≡ field t)
    → (xs : List A) (t : Tables) → field (in_turn f xs t) ≡ field t
in_turn_frame f field frame [] t = refl
in_turn_frame f field frame (x ∷ xs) t = in_turn_frame f field frame xs (f x t) ∙ frame x t

-- An invariant of the operation is one of the loop.
pub in_turn_invariant :
    {A : Type 0} (f : A → Tables → Tables) (P : Tables → Type 0)
    → ((x : A) (t : Tables) → P t → P (f x t))
    → (xs : List A) (t : Tables) → P t
    → P (in_turn f xs t)
in_turn_invariant f P keep [] t h = h
in_turn_invariant f P keep (x ∷ xs) t h = in_turn_invariant f P keep xs (f x t) (keep x t h)

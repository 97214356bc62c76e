-- ===== src/Store/Db/Keeps.antt =====
-- A property of the tables that an operation keeps, whichever of its statements fails.
use pocket_settlement_monito.Prelude.{Bool, true, false, List, [], ◌∷◌}
use pocket_settlement_monito.Prelude.Exec.{Result, ok, err, Exec, continue, ◌>>=◌, for_each}
use pocket_settlement_monito.Store.Tables.{Tables}
use pocket_settlement_monito.Store.Db.{Db, statement, attempt}

module _ (P : Tables → Type 0) where
  pub record Keeps {A : Type 0} (m : Exec Db A) : Type 0 where
    pub at : (db : Db) → P db.tables → P (m db).1.tables

  attempt_keeps :
      {A : Type 0} (fs : List Bool) (f : Tables → A × Tables) (t : Tables)
      → P t
      → P (f t).1
      → P (attempt fs f t).1.tables
  attempt_keeps [] f t p q = q
  attempt_keeps (true ∷ fs) f t p q = p
  attempt_keeps (false ∷ fs) f t p q = q

  pub statement-Keeps :
      {A : Type 0} (f : Tables → A × Tables)
      → ((t : Tables) → P t → P (f t).1)
      → Keeps (statement f)
  unfolding statement
  statement-Keeps f h = record {
    at = λ db p. attempt_keeps db.failures f db.tables p (h db.tables p);
  }

  continue_keeps :
      {A B : Type 0} (r : Result A) (db : Db) (k : A → Exec Db B)
      → ((a : A) → Keeps (k a))
      → P db.tables
      → P (continue r k db).1.tables
  continue_keeps (ok a) db k h p = (h a).at db p
  continue_keeps (err e) db k h p = p

  pub bind-Keeps :
      {A B : Type 0} (m : Exec Db A) (k : A → Exec Db B)
      → Keeps m
      → ((a : A) → Keeps (k a))
      → Keeps (m >>= k)
  bind-Keeps m k hm hk = record { at = λ db p. continue_keeps (m db).0 (m db).1 k hk (hm.at db p) }

  pub for_each-Keeps :
      {A : Type 0} (m : A → Exec Db Unit) (xs : List A)
      → ((a : A) → Keeps (m a))
      → Keeps (for_each m xs)
  for_each-Keeps m [] h = record { at = λ db p. p }
  for_each-Keeps m (x ∷ xs) h =
      bind-Keeps (m x) (λ _. for_each m xs) (h x) (λ _. for_each-Keeps m xs h)

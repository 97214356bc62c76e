-- ===== src/Prelude/Exec.antt =====
-- Operations that change a state and may return an error: the state comes back beside the error too.

use mathlib.Core.List.{List, [], ◌∷◌}

-- `store` is any error of the database, `rpc` one of the node, `context` a cancelled context.
pub data Error : Type 0 where
  store rpc context invalid_input : Error

pub data Result {ℓ} (A : Type ℓ) : Type ℓ where
  ok : A → Result A
  err : Error → Result A

abbrev pub Exec : Type 0 → Type 0 → Type 0
Exec S A = S → Result A × S

module _ {S A B : Type 0} where
  abbrev pub continue : Result A → (A → Exec S B) → Exec S B
  continue (ok a) f s = f a s
  continue (err e) f s = (err e, s)

  infixl 10 ◌>>=◌ ◌>>◌
  abbrev pub ◌>>=◌ : Exec S A → (A → Exec S B) → Exec S B
  ◌>>=◌ m f s = let (r, s') = m s in continue r f s'

  abbrev pub ◌>>◌ : Exec S A → Exec S B → Exec S B
  m >> n = m >>= λ _. n

module _ {S A : Type 0} where
  abbrev pub pure : A → Exec S A
  pure a s = (ok a, s)

-- `for _, x := range xs { if err := f(x); err != nil { return err } }`
abbrev pub for_each {ℓ} : {S : Type 0} {A : Type ℓ} → (A → Exec S Unit) → List A → Exec S Unit
for_each f [] = pure tt
for_each f (x ∷ xs) = f x >> for_each f xs

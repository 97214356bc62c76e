-- ===== src/Prelude/Maps.antt =====
-- Go's maps, as association lists: a read, and a write that replaces.
use mathlib.Core.Path.{◌≡◌, refl, sym, ◌∙◌}
use mathlib.Core.Logic.{inl, inr}
use mathlib.Core.Option.{Option, none, some}
use mathlib.Core.List.{List, [], ◌∷◌, ◌++◌, append-nil, append_assoc}
use native.Mathlib.Omega.{arith}
use pocket_settlement_monito.Prelude.Tests.{if◌then◌else◌, Bool-cases}
use pocket_settlement_monito.Prelude.Lists.{select, any}
use pocket_settlement_monito.Prelude.Eq.{Eq, ◌=?◌, eq_of_=?}

abbrev pub Map : Type 0 → Type 0 → Type 0
Map K V = List (K × V)

module _ {K V : Type 0} ⦃e : Eq K⦄ where
  -- `v, found := m[k]`
  unfoldable pub get : K → Map K V → Option V
  get k [] = none
  get k ((j, v) ∷ m) = if j =? k then some v else get k m

  -- `m[k] = v`
  unfoldable pub put : K → V → Map K V → Map K V
  put k v [] = (k, v) ∷ []
  put k v ((j, w) ∷ m) = if j =? k then (k, v) ∷ m else (j, w) ∷ put k v m

  pub get-put :
      (k j : K) (v : V) (m : Map K V) → get j (put k v m) ≡ (if k =? j then some v else get j m)
  unfolding get put
  get-put k j v [] = refl
  get-put k j v ((i, w) ∷ m) =
      ground (arith, e.beq_iff k j, e.beq_iff i k, e.beq_iff i j, get-put k j v m)

abbrev pub or_nil : {A : Type 0} → Option (List A) → List A
or_nil none = []
or_nil (some xs) = xs

module _ {K A : Type 0} ⦃e : Eq K⦄ (key : A → K) where
  -- `for _, x := range xs { m[key(x)] = append(m[key(x)], x) }`
  unfoldable pub group_into : List A → Map K (List A) → Map K (List A)
  group_into [] m = m
  group_into (x ∷ xs) m = group_into xs (put (key x) (or_nil (get (key x) m) ++ x ∷ []) m)

  abbrev pub group_by : List A → Map K (List A)
  group_by xs = group_into xs []

  group_into-get :
      (xs : List A) (m : Map K (List A)) (k : K)
      → or_nil (get k (group_into xs m)) ≡ or_nil (get k m) ++ select (λ x. key x =? k) xs
  unfolding group_into
  group_into-get [] m k = sym (append-nil (or_nil (get k m)))
  group_into-get (x ∷ xs) m k = group_into-get xs _ k ∙ step
    where
      step :
          or_nil (get k (put (key x) (or_nil (get (key x) m) ++ x ∷ []) m))
            ++ select (λ y. key y =? k) xs
          ≡ or_nil (get k m) ++ select (λ y. key y =? k) (x ∷ xs)
      step = elim (Bool-cases (key x =? k)) [
        | inl hit ↦
            rw (get-put (key x) k (or_nil (get (key x) m) ++ x ∷ []) m, hit)
              (rw (eq_of_=? (key x) k hit) (append_assoc (or_nil (get k m)) (x ∷ []) _))
        | inr miss ↦ rw (get-put (key x) k (or_nil (get (key x) m) ++ x ∷ []) m, miss)
      ]

  -- A group holds the items with its key, in their order.
  pub group_by-get :
      (xs : List A) (k : K) → or_nil (get k (group_by xs)) ≡ select (λ x. key x =? k) xs
  unfolding get
  group_by-get xs k = group_into-get xs [] k

module _ {K : Type 0} ⦃e : Eq K⦄ where
  -- A set as a list: `m[k] = struct{}{}`.
  unfoldable pub add_to : K → List K → List K
  add_to k s = if any (λ j. j =? k) s then s else s ++ k ∷ []

-- ===== src/Prelude/Sorting.antt =====
-- Insertion sort by a Boolean order, standing for an ORDER BY: the result is a rearrangement in order.
use mathlib.Core.Path.{◌≡◌}
use mathlib.Core.Logic.{inl, inr}
use mathlib.Core.Bool.{Bool, true, false, not}
use mathlib.Core.List.{List, [], ◌∷◌, ◌++◌, Perm, perm_middle}
use mathlib.Core.List.Perm
use pocket_settlement_monito.Prelude.Tests.{if◌then◌else◌, Bool-cases}
use pocket_settlement_monito.Prelude.Lists.{All, All-imp, select}

module _ {A : Type 0} (before : A → A → Bool) where
  unfoldable pub place : A → List A → List A
  place x [] = x ∷ []
  place x (y ∷ ys) = if before x y then x ∷ y ∷ ys else y ∷ place x ys

  unfoldable pub sort : List A → List A
  sort [] = []
  sort (x ∷ xs) = place x (sort xs)

  abbrev pub IsSorted : List A → Type 0
  IsSorted [] = Unit
  IsSorted (x ∷ xs) = All (λ y. before x y ≡ true) xs × IsSorted xs

  place-perm : (x : A) (xs : List A) → Perm (place x xs) (x ∷ xs)
  unfolding place
  place-perm x [] = Perm.rfl
  place-perm x (y ∷ ys) = elim (Bool-cases (before x y)) [
    | inl first ↦ rw first Perm.rfl
    | inr later ↦ rw later (Perm.trans (Perm.cons y (place-perm x ys)) (Perm.swap x y ys))
  ]

  pub sort-perm : (xs : List A) → Perm (sort xs) xs
  unfolding sort
  sort-perm [] = Perm.rfl
  sort-perm (x ∷ xs) = Perm.trans (place-perm x (sort xs)) (Perm.cons x (sort-perm xs))

  place-All : (P : A → Type 0) (x : A) (xs : List A) → P x → All P xs → All P (place x xs)
  unfolding place
  place-All P x [] h hs = (h, tt)
  place-All P x (y ∷ ys) h hs = elim (Bool-cases (before x y)) [
    | inl first ↦ rw first (h, hs)
    | inr later ↦ rw later (hs.0, place-All P x ys h hs.1)
  ]

  pub sort-All : (P : A → Type 0) (xs : List A) → All P xs → All P (sort xs)
  unfolding sort
  sort-All P [] h = tt
  sort-All P (x ∷ xs) h = place-All P x (sort xs) h.0 (sort-All P xs h.1)

  module _ (total : (x y : A) → before x y ≡ false → before y x ≡ true)
      (trans : (x y z : A) → before x y ≡ true → before y z ≡ true → before x z ≡ true) where
    place-IsSorted : (x : A) (xs : List A) → IsSorted xs → IsSorted (place x xs)
    unfolding place
    place-IsSorted x [] s = (tt, tt)
    place-IsSorted x (y ∷ ys) s = elim (Bool-cases (before x y)) [
      | inl first ↦ rw first ((first, All-imp _ _ ys (λ z h. trans x y z first h) s.0), s)
      | inr later ↦ rw later (place-All _ x ys (total x y later) s.0, place-IsSorted x ys s.1)
    ]

    pub sort-IsSorted : (xs : List A) → IsSorted (sort xs)
    unfolding sort
    sort-IsSorted [] = tt
    sort-IsSorted (x ∷ xs) = place-IsSorted x (sort xs) (sort-IsSorted xs)

-- What a filter keeps and what it drops are the list.
pub select-perm :
    {A : Type 0} (p : A → Bool) (xs : List A) → Perm (select p xs ++ select (λ x. not (p x)) xs) xs
select-perm p [] = Perm.rfl
select-perm p (x ∷ xs) = elim (Bool-cases (p x)) [
  | inl kept ↦ rw kept (Perm.cons x (select-perm p xs))
  | inr dropped ↦
      rw dropped (Perm.trans (perm_middle (select p xs) _) (Perm.cons x (select-perm p xs)))
]

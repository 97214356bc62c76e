-- ===== src/Prelude/Lists.antt =====
-- Lists measured by native numbers, the program's filters by a Boolean test, and left folds.
use Prim.Native.Nat.{ℕ, zero, suc, ◌+◌, ◌≤◌}
use mathlib.Core.Path.{◌≡◌, refl, ap}
use mathlib.Core.Logic.{◌⊎◌, inl, inr}
use mathlib.Core.Bool.{Bool, true, false, not, ◌&&◌}
use mathlib.Core.List.{List, [], ◌∷◌, ◌++◌}
use native.Mathlib.Omega.{arith}
use pocket_settlement_monito.Prelude.Tests.{if◌then◌else◌}

module _ {ℓ} {A : Type ℓ} where
  abbrev pub length : List A → ℕ
  length [] = 0
  length (x ∷ xs) = suc (length xs)

  -- `for _, x := range xs { if p(x) { out = append(out, x) } }`
  abbrev pub select : (A → Bool) → List A → List A
  select p [] = []
  select p (x ∷ xs) = if p x then x ∷ select p xs else select p xs

  abbrev pub take : ℕ → List A → List A
  take zero xs = []
  take (suc n) [] = []
  take (suc n) (x ∷ xs) = x ∷ take n xs

  abbrev pub drop : ℕ → List A → List A
  drop zero xs = xs
  drop (suc n) [] = []
  drop (suc n) (x ∷ xs) = drop n xs

  abbrev pub any : (A → Bool) → List A → Bool
  any p [] = false
  any p (x ∷ xs) = if p x then true else any p xs

  -- `for _, x := range xs { s = f(s, x) }`
  abbrev pub fold {κ} : {S : Type κ} → (S → A → S) → S → List A → S
  fold f s [] = s
  fold f s (x ∷ xs) = fold f (f s x) xs

  abbrev pub All {κ} : (A → Type κ) → List A → Type κ
  All P [] = Unit
  All P (x ∷ xs) = P x × All P xs

module _ {ℓ} {A : Type ℓ} where
  pub length-append : (xs ys : List A) → length (xs ++ ys) ≡ length xs + length ys
  length-append [] ys = omega arith
  length-append (x ∷ xs) ys = omega (arith, length-append xs ys)

  pub fold-append {κ} :
      {S : Type κ} (f : S → A → S) (s : S) (xs ys : List A)
      → fold f s (xs ++ ys) ≡ fold f (fold f s xs) ys
  fold-append f s [] ys = refl
  fold-append f s (x ∷ xs) ys = fold-append f (f s x) xs ys

  pub select-append :
      (p : A → Bool) (xs ys : List A) → select p (xs ++ ys) ≡ select p xs ++ select p ys
  select-append p [] ys = refl
  select-append p (x ∷ xs) ys = ground (arith, select-append p xs ys)

  pub any-append_left : (p : A → Bool) (xs ys : List A) → any p xs ≡ true → any p (xs ++ ys) ≡ true
  any-append_left p [] ys h = ground arith
  any-append_left p (x ∷ xs) ys h = ground (arith, any-append_left p xs ys)

  pub any-append_right : (p : A → Bool) (xs ys : List A) → any p ys ≡ true → any p (xs ++ ys) ≡ true
  any-append_right p [] ys h = h
  any-append_right p (x ∷ xs) ys h = ground (arith, any-append_right p xs ys)

module _ {ℓ κ} {A : Type ℓ} (P : A → Type κ) where
  pub All-append : (xs ys : List A) → All P xs → All P ys → All P (xs ++ ys)
  All-append [] ys hx hy = hy
  All-append (x ∷ xs) ys hx hy = (hx.0, All-append xs ys hx.1 hy)

  pub All_every : (xs : List A) → ((x : A) → P x) → All P xs
  All_every [] f = tt
  All_every (x ∷ xs) f = (f x, All_every xs f)

  pub All-imp {μ} : (Q : A → Type μ) (xs : List A) → ((x : A) → P x → Q x) → All P xs → All Q xs
  All-imp Q [] f h = tt
  All-imp Q (x ∷ xs) f h = (f x h.0, All-imp Q xs f h.1)

  pub All-select : (p : A → Bool) (xs : List A) → All P xs → All P (select p xs)
  All-select p [] h = tt
  All-select p (x ∷ xs) h = ground (arith, All-select p xs h.1)

module _ {ℓ} {A : Type ℓ} where
  -- What is kept passes the test.
  pub All-select_kept : (p : A → Bool) (xs : List A) → All (λ x. p x ≡ true) (select p xs)
  All-select_kept p [] = tt
  All-select_kept p (x ∷ xs) = ground (arith, All-select_kept p xs)

  pub select_idem : (p : A → Bool) (xs : List A) → select p (select p xs) ≡ select p xs
  select_idem p [] = refl
  select_idem p (x ∷ xs) = ground (arith, select_idem p xs)

  pub length-select-partition :
      (p : A → Bool) (xs : List A)
      → length (select p xs) + length (select (λ x. not (p x)) xs) ≡ length xs
  length-select-partition p [] = omega arith
  length-select-partition p (x ∷ xs) = ground (arith, length-select-partition p xs)

module _ {ℓ} {A : Type ℓ} (p q : A → Bool) where
  pub select-select : (xs : List A) → select q (select p xs) ≡ select (λ x. p x && q x) xs
  select-select [] = refl
  select-select (x ∷ xs) = ground (arith, select-select xs)

  pub any-select : (xs : List A) → any q (select p xs) ≡ any (λ x. p x && q x) xs
  any-select [] = refl
  any-select (x ∷ xs) = ground (arith, any-select xs)

  pub select_ext : ((x : A) → p x ≡ q x) → (xs : List A) → select p xs ≡ select q xs
  select_ext h [] = refl
  select_ext h (x ∷ xs) = ground (arith, h x, select_ext h xs)

  pub any_ext : ((x : A) → p x ≡ q x) → (xs : List A) → any p xs ≡ any q xs
  any_ext h [] = refl
  any_ext h (x ∷ xs) = ground (arith, h x, any_ext h xs)

module _ {ℓ} {A : Type ℓ} where
  pub take-drop : (n : ℕ) (xs : List A) → take n xs ++ drop n xs ≡ xs
  take-drop zero xs = refl
  take-drop (suc n) [] = refl
  take-drop (suc n) (x ∷ xs) = ap (◌∷◌ x) (take-drop n xs)

  pub length-take-le : (n : ℕ) (xs : List A) → length (take n xs) ≤ n
  length-take-le zero xs = omega arith
  length-take-le (suc n) [] = omega arith
  length-take-le (suc n) (x ∷ xs) = omega (arith, length-take-le n xs)

  -- Items are left only where all `n` are taken.
  pub take-full : (n : ℕ) (xs : List A) → (drop n xs ≡ []) ⊎ (length (take n xs) ≡ n)
  take-full zero xs = inr refl
  take-full (suc n) [] = inl refl
  take-full (suc n) (x ∷ xs) = elim (take-full n xs) [
    | inl none_left ↦ inl none_left
    | inr full ↦ inr (ap suc full)
  ]

-- ===== src/Store/Db/Walk.antt =====
-- A walk over a set that rewrites one entry for each item: an entry of the set is written once, and no
-- other is. `P` holds of the items.
use pocket_settlement_monito.Prelude.{
  ◌≡◌, refl, ap, ◌∙◌, inl, inr, true, false, List, [], ◌∷◌, any, All, Bool-cases, arith,
}
use pocket_settlement_monito.Prelude.Eq.{Eq, ◌=?◌, eq_of_=?}
use pocket_settlement_monito.Store.Tables.{Tables}
use pocket_settlement_monito.Store.Tables.Laws.{KeysDistinct}
use pocket_settlement_monito.Store.Db.{in_turn}
use mathlib.Core.Bool.{false≢true}

module _ {K V : Type 0} ⦃e : Eq K⦄ (f : K → Tables → Tables) (look : K → Tables → V)
    (P : K → Type 0)
    (look_frame : (k j : K) (t : Tables) → P k → P j → (j =? k) ≡ false → look k (f j t) ≡ look k t)
    (k : K) (pk : P k) where
  pub in_turn_never :
      (ks : List K) (t : Tables)
      → All P ks
      → any (λ j. j =? k) ks ≡ false
      → look k (in_turn f ks t) ≡ look k t
  in_turn_never [] t ps h = refl
  in_turn_never (j ∷ ks) t ps h = elim (Bool-cases (j =? k)) [
    | inl hit ↦ absurd (false≢true (ground arith))
    | inr miss ↦ in_turn_never ks (f j t) ps.1 (ground arith) ∙ look_frame k j t pk ps.0 miss
  ]

  module _ (new : K → Tables → V) (at : (k : K) (t : Tables) → P k → look k (f k t) ≡ new k t)
      (new_frame : (k j : K) (t : Tables)
        → P k
        → P j
        → (j =? k) ≡ false
        → new k (f j t) ≡ new k t) where
    pub in_turn_once :
        (ks : List K) (t : Tables)
        → All P ks
        → KeysDistinct (λ j. j) ks
        → any (λ j. j =? k) ks ≡ true
        → look k (in_turn f ks t) ≡ new k t
    in_turn_once [] t ps d h = cc
    in_turn_once (j ∷ ks) t ps d h = elim (Bool-cases (j =? k)) [
      | inl hit ↦
          let same = eq_of_=? j k hit in
          in_turn_never ks (f j t) ps.1 (rw (← same) d.0)
          ∙ ap (λ x. look k (f x t)) same
          ∙ at k t pk
      | inr miss ↦ in_turn_once ks (f j t) ps.1 d.1 (ground arith) ∙ new_frame k j t pk ps.0 miss
    ]
